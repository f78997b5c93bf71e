-- ===== src/Socket/Send.antt =====
-- aodv_socket.c: aodv_socket_new_msg, aodv_socket_queue_msg and aodv_socket_send.
-- Every caller passes a pointer to `send_buf`, which is also what `sendto` is given.
use aodv.Base.{
  ℕ, ◌+◌, Bool, true, false, ◌&&◌, Option, none, some, List, [], ◌∷◌, ◌++◌, drop, ℤ, pos, ltb_ℤ,
  ◌==◌, if◌then◌else◌,
}
use aodv.Timer.{Timeval, timeval_diff, zero_time}
use aodv.Msg.{Msg, blank, rreq, rrep, rerr, aodv_broadcast}
use aodv.Node.{⊤, M, pure, skip, when, get, modify, on_host, ◌>>=◌, ◌>>◌, gettimeofday, RateLimit}

unfoldable pub aodv_socket_new_msg : M ⊤
aodv_socket_new_msg = modify λ s. record s { send_buf = blank }

unfoldable pub aodv_socket_queue_msg : Msg → M ⊤
aodv_socket_queue_msg m = modify λ s. record s { send_buf = m }

abbrev pub is_rrep : Msg → Bool
is_rrep (rrep m) = true
is_rrep _ = false

-- RREQ_RATELIMIT and RERR_RATELIMIT
abbrev pub ratelimit_max : ℕ
ratelimit_max = 10

abbrev pub first_stamp : List Timeval → Timeval
first_stamp [] = zero_time
first_stamp (t ∷ l) = t

-- One case of the switch: `none` if the message is dropped.
unfoldable pub admit : Timeval → RateLimit → Option RateLimit
admit now l =
    if l.num == ratelimit_max
    then if ltb_ℤ (timeval_diff now (first_stamp l.stamps)) (pos 1000)
      then none
      else some (record l { stamps = drop 1 l.stamps ++ now ∷ [] })
    else some (record { num = l.num + 1; stamps = l.stamps ++ now ∷ [] })

abbrev with_rreq_limit : Option RateLimit → M Bool
with_rreq_limit none s = (false, s)
with_rreq_limit (some l) s = (true, record s { rreq_limit = l })

abbrev with_rerr_limit : Option RateLimit → M Bool
with_rerr_limit none s = (false, s)
with_rerr_limit (some l) s = (true, record s { rerr_limit = l })

-- The switch on the type: whether the message may go out.
unfoldable pub pass_limit : Timeval → Msg → M Bool
pass_limit now (rreq m) s = with_rreq_limit (admit now s.rreq_limit) s
pass_limit now (rerr m) s = with_rerr_limit (admit now s.rerr_limit) s
pass_limit now _ s = (true, s)

unfoldable pub check_limit : M Bool
unfolding pass_limit gettimeofday
check_limit = do
  s ← get
  if s.conf.ratelimit then (do now ← gettimeofday; pass_limit now s.send_buf) else pure true

-- A failure of sendto is only logged.
unfoldable pub transmit : ℕ → ℕ → ℤ → M ⊤
unfolding gettimeofday
transmit dest len ttl = do
  when (dest == aodv_broadcast)
      (do now ← gettimeofday; on_host λ h. record h { last_broadcast_time = now })
  modify λ s. record s {
    sent = record { msg = s.send_buf; dest = dest; len = len; ttl = ttl } ∷ s.sent;
  }

unfoldable pub aodv_socket_send : ℕ → ℕ → ℤ → M ⊤
unfolding check_limit transmit
aodv_socket_send dest len ttl = do
  s ← get
  if s.wait_on_reboot && is_rrep s.send_buf
      then skip
      else if s.env.set_ip_ttl ttl
      then (do pass ← check_limit; when pass (transmit dest len ttl))
      else skip
