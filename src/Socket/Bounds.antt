-- ===== src/Socket/Bounds.antt =====
-- The arrays of the rate limit, and what aodv_socket_send sends.
use aodv.Base.{
  ℕ, is_some, not, ◌&&◌, ◌||◌, ◌==◌, if◌then◌else◌, inl, inr, Bool-cases, Option-cases, ◌≤◌, ◌≡◌,
  Bool, true, false, some, [], ◌∷◌, length, length-append, arith, ℤ,
}
use aodv.Timer.{Timeval}
use aodv.Msg.{Msg, rreq, rrep, rrep_ack, rerr, hello, unknown, blank, aodv_broadcast}
use aodv.Node.{⊤, M, when, skip, pure, ◌>>=◌, State, RateLimit, gettimeofday}
use aodv.Socket.Send.{is_rrep, admit, pass_limit, check_limit, transmit, aodv_socket_send}

-- The count is the number of stamps, and the array of ten holds them.
pub record FitsLimit (l : RateLimit) : Type 0 where
  pub counted : l.num ≡ length l.stamps
  pub bounded : l.num ≤ 10

admit-FitsLimit :
    (now : Timeval) (l l' : RateLimit) → admit now l ≡ some l' → FitsLimit l → FitsLimit l'
unfolding admit
admit-FitsLimit now l l' e v = record {
  counted = ground (arith, v.counted, v.bounded, length-append l.stamps (now ∷ []));
  bounded = ground (arith, v.counted, v.bounded);
}

abbrev pub FitLimits : State → Type 0
FitLimits s = FitsLimit s.rreq_limit × FitsLimit s.rerr_limit

module _ (now : Timeval) (s : State) (v : FitLimits s) where
  pass_limit-FitLimits : (m : Msg) → FitLimits (pass_limit now m s).1
  unfolding pass_limit
  pass_limit-FitLimits (rreq m) = elim (Option-cases (admit now s.rreq_limit)) [
    | inl e ↦ rw (e, pass_limit) v
    | inr (l, e) ↦ rw (e, pass_limit) (admit-FitsLimit now s.rreq_limit l e v.0, v.1)
  ]
  pass_limit-FitLimits (rerr m) = elim (Option-cases (admit now s.rerr_limit)) [
    | inl e ↦ rw (e, pass_limit) v
    | inr (l, e) ↦ rw (e, pass_limit) (v.0, admit-FitsLimit now s.rerr_limit l e v.1)
  ]
  pass_limit-FitLimits (rrep m) = v
  pass_limit-FitLimits (hello m) = v
  pass_limit-FitLimits blank = v
  pass_limit-FitLimits rrep_ack = v
  pass_limit-FitLimits (unknown n) = v

transmit-limits : (d l : ℕ) (t : ℤ) (s : State) → FitLimits s → FitLimits (transmit d l t s).1
unfolding transmit gettimeofday
transmit-limits d l t s v = elim (Bool-cases (d == aodv_broadcast)) [
  | inl e ↦ rw (e, transmit) v
  | inr e ↦ rw (e, transmit) v
]

if-FitLimits :
    {A : Type 0} (b : Bool) (m k : M A) (s : State)
    → FitLimits (m s).1
    → FitLimits (k s).1
    → FitLimits ((if b then m else k) s).1
if-FitLimits true m k s v w = v
if-FitLimits false m k s v w = w

check_limit-FitLimits : (s : State) → FitLimits s → FitLimits (check_limit s).1
unfolding check_limit gettimeofday
check_limit-FitLimits s v =
    if-FitLimits s.conf.ratelimit (gettimeofday >>= λ now. pass_limit now s.send_buf) (pure true) s
      (pass_limit-FitLimits (s.env.clock s.reads) (gettimeofday s).1 v s.send_buf) v

pub send-FitLimits :
    (d l : ℕ) (t : ℤ) (s : State) → FitLimits s → FitLimits (aodv_socket_send d l t s).1
unfolding aodv_socket_send
send-FitLimits d l t s v =
    let (pass, s') = check_limit s in
    let w : FitLimits s' = check_limit-FitLimits s v in
    let send : M ⊤ = (check_limit >>= λ p. when p (transmit d l t)) in
    if-FitLimits (s.wait_on_reboot && is_rrep s.send_buf) skip
      (if s.env.set_ip_ttl t then send else skip) s v
      (if-FitLimits (s.env.set_ip_ttl t) send skip s
        (if-FitLimits pass (transmit d l t) skip s' (transmit-limits d l t s' w) w) v)

-- Whether a message goes out: not a RREP during the wait after a reboot, not with a TTL that the
-- socket does not take, and not a RREQ or a RERR beyond the rate limit.
abbrev pub within_limit : Timeval → State → Bool
within_limit now s = elim s.send_buf [
  | rreq m ↦ is_some (admit now s.rreq_limit)
  | rerr m ↦ is_some (admit now s.rerr_limit)
  | _ ↦ true
]

abbrev pub goes_out : ℤ → State → Bool
goes_out ttl s =
    not (s.wait_on_reboot && is_rrep s.send_buf)
    && s.env.set_ip_ttl ttl
    && (not s.conf.ratelimit || within_limit (s.env.clock s.reads) s)

-- aodv_socket_send hands the buffer to sendto once, with the destination, the length and the TTL that it
-- is given, if the message goes out by the rules of goes_out; else it hands over nothing.
pub aodv_socket_send-sent :
    (d l : ℕ) (t : ℤ) (s : State)
    → (aodv_socket_send d l t s).1.sent ≡ (
        if goes_out t s
        then record { msg = s.send_buf; dest = d; len = l; ttl = t } ∷ s.sent
        else s.sent)
unfolding aodv_socket_send check_limit pass_limit transmit gettimeofday
aodv_socket_send-sent d l t s = ground arith
