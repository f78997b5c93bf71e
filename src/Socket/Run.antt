-- ===== src/Socket/Run.antt =====
-- Runs of aodv_socket_send, as the rate limit lets them through.
use aodv.Base.{
  ℕ, ◌≡◌, refl, ap, subst, sym, ◌∙◌, Bool, true, false, not, ◌&&◌, some, List, [], ◌∷◌, ◌++◌,
  length, ◌==◌, if◌then◌else◌, ℤ, arith, Bool-cases, Option-cases, inl, inr, ◌⊎◌,
}
use aodv.Timer.{Timeval}
use aodv.Msg.{Msg, rreq, rerr}
use aodv.Node.{State, RateLimit, Settings, gettimeofday}
use aodv.Socket.Send.{admit, check_limit, pass_limit, transmit, aodv_socket_send}
use aodv.Socket.Limit.{no_stamps, Spaced, Keeps, admit-Keeps, none-Keeps, append-nil}
use aodv.Socket.Frame.{send-conf}

-- The two kinds of messages that are limited, and the array of each.
pub data Limited : Type 0 where
  rreqs rerrs : Limited

abbrev pub is_limited : Limited → Msg → Bool
is_limited rreqs (rreq m) = true
is_limited rerrs (rerr m) = true
is_limited _ _ = false

abbrev pub limit : Limited → State → RateLimit
limit rreqs s = s.rreq_limit
limit rerrs s = s.rerr_limit

-- A call of aodv_socket_send: the message in `send_buf`, and how often the clock was read before the call.
pub record Call : Type 0 where
  pub msg : Msg
  pub dest : ℕ
  pub len : ℕ
  pub ttl : ℤ
  pub reads : ℕ

unfoldable pub call : Call → State → State
unfolding aodv_socket_send
call c s = (aodv_socket_send c.dest c.len c.ttl (record s { send_buf = c.msg; reads = c.reads })).1

-- The reading at which a message of a kind goes out by a call: when the log of what was sent grows.
unfoldable pub gone_out : Limited → Call → State → List Timeval
unfolding call
gone_out k c s =
    if is_limited k c.msg && not (length (call c s).sent == length s.sent)
    then s.env.clock c.reads ∷ []
    else []

-- The readings at which messages of a kind go out by a run of calls.
unfoldable pub all_out : Limited → List Call → State → List Timeval
unfolding gone_out
all_out k [] s = []
all_out k (c ∷ l) s = gone_out k c s ++ all_out k l (call c s)

-- A call either leaves the array and sends nothing of the kind, or goes by `admit`.
abbrev Outcome : Limited → Call → State → Type 0
Outcome k c s =
    ((gone_out k c s ≡ []) × (limit k (call c s) ≡ limit k s))
    ⊎ ((gone_out k c s ≡ s.env.clock c.reads ∷ [])
        × (admit (s.env.clock c.reads) (limit k s) ≡ some (limit k (call c s))))

other-Outcome : (k : Limited) (c : Call) (s : State) → is_limited k c.msg ≡ false → Outcome k c s
unfolding call gone_out aodv_socket_send check_limit pass_limit transmit gettimeofday
other-Outcome rreqs c s e = inl (ground (arith, e), ground (arith, e))
other-Outcome rerrs c s e = inl (ground (arith, e), ground (arith, e))

limited-Outcome :
    (k : Limited) (c : Call) (s : State)
    → s.conf.ratelimit ≡ true
    → is_limited k c.msg ≡ true
    → Outcome k c s
unfolding call gone_out aodv_socket_send check_limit pass_limit transmit gettimeofday
limited-Outcome rreqs c s on e = elim (Bool-cases (s.env.set_ip_ttl c.ttl)) [
  | inl takes ↦ elim (Option-cases (admit (s.env.clock c.reads) (limit rreqs s))) [
    | inl over ↦ inl (ground (arith, on, e, takes, over), ground (arith, on, e, takes, over))
    | inr (l, passes) ↦
        inr (ground (arith, on, e, takes, passes), ground (arith, on, e, takes, passes))
  ]
  | inr refuses ↦ inl (ground (arith, e, refuses), ground (arith, e, refuses))
]
limited-Outcome rerrs c s on e = elim (Bool-cases (s.env.set_ip_ttl c.ttl)) [
  | inl takes ↦ elim (Option-cases (admit (s.env.clock c.reads) (limit rerrs s))) [
    | inl over ↦ inl (ground (arith, on, e, takes, over), ground (arith, on, e, takes, over))
    | inr (l, passes) ↦
        inr (ground (arith, on, e, takes, passes), ground (arith, on, e, takes, passes))
  ]
  | inr refuses ↦ inl (ground (arith, e, refuses), ground (arith, e, refuses))
]

call-Keeps :
    (k : Limited) (c : Call) (s : State) (h : List Timeval)
    → s.conf.ratelimit ≡ true
    → Keeps (limit k s) h
    → Keeps (limit k (call c s)) (h ++ gone_out k c s)
call-Keeps k c s h on keeps =
    let from : Outcome k c s → Keeps (limit k (call c s)) (h ++ gone_out k c s) = λ o. elim o [
      | inl (none_out, same) ↦
          subst (λ x. Keeps (limit k (call c s)) (h ++ x)) (sym none_out)
            (subst (Keeps (limit k (call c s))) (sym (append-nil h))
              (subst (λ x. Keeps x h) (sym same) keeps))
      | inr (out, passes) ↦
          subst (λ x. Keeps (limit k (call c s)) (h ++ x)) (sym out)
            (admit-Keeps (s.env.clock c.reads) (limit k s) (limit k (call c s)) h passes keeps)
    ] in
    elim (Bool-cases (is_limited k c.msg)) [
      | inl e ↦ from (limited-Outcome k c s on e)
      | inr e ↦ from (other-Outcome k c s e)
    ]

append_assoc : (a b c : List Timeval) → (a ++ b) ++ c ≡ a ++ (b ++ c)
append_assoc [] b c = refl
append_assoc (t ∷ a) b c = ap (◌∷◌ t) (append_assoc a b c)

call-conf : (c : Call) (s : State) → (call c s).conf ≡ s.conf
unfolding call
call-conf c s = send-conf c.dest c.len c.ttl (record s { send_buf = c.msg; reads = c.reads })

all-Keeps :
    (k : Limited) (l : List Call) (s : State) (h : List Timeval)
    → s.conf.ratelimit ≡ true
    → Keeps (limit k s) h
    → Spaced (h ++ all_out k l s)
unfolding all_out
all-Keeps k [] s h on keeps = subst Spaced (sym (append-nil h)) keeps.spaced
all-Keeps k (c ∷ l) s h on keeps =
    subst Spaced (append_assoc h (gone_out k c s) (all_out k l (call c s))) (
      all-Keeps k l (call c s) (h ++ gone_out k c s)
        (ap (λ (x : Settings). x.ratelimit) (call-conf c s) ∙ on) (call-Keeps k c s h on keeps))

-- However often aodv_socket_send is called, with whatever messages, destinations and TTLs and whatever the
-- clock reads: the tenth RREQ to go out after another goes out a second after it, or later, and so does the
-- tenth RERR after another. It is so with the rate limit on, for runs that start with the two arrays empty.
pub aodv_socket_send-Spaced :
    (l : List Call) (s : State)
    → s.conf.ratelimit ≡ true
    → s.rreq_limit ≡ no_stamps
    → s.rerr_limit ≡ no_stamps
    → Spaced (all_out rreqs l s) × Spaced (all_out rerrs l s)
aodv_socket_send-Spaced l s on no_rreqs no_rerrs = (
  all-Keeps rreqs l s [] on (subst (λ x. Keeps x []) (sym no_rreqs) none-Keeps),
  all-Keeps rerrs l s [] on (subst (λ x. Keeps x []) (sym no_rerrs) none-Keeps),
)
