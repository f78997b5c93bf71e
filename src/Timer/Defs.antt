-- ===== src/Timer/Defs.antt =====
-- timer_queue.c: the types and the operations.
use aodv.Base.{
  ℕ, ◌+◌, ◌-◌, ◌*◌, ◌/◌, ◌%◌, Bool, true, false, List, [], ◌∷◌, Option, none, some, ℕ_discrete,
  if◌then◌else◌, ltb, ltb_ℤ, ℤ, pos, negsuc, tdiv, sub_ℕ,
}

-- struct timeval
pub record Timeval : Type 0 where
  pub tv_sec : ℕ
  pub tv_usec : ℕ

abbrev pub zero_time : Timeval
zero_time = record { tv_sec = 0; tv_usec = 0 }

abbrev pub us : Timeval → ℕ
us t = t.tv_sec * 1000000 + t.tv_usec

-- The difference in milliseconds, rounded towards zero.
abbrev pub timeval_diff : Timeval → Timeval → ℤ
timeval_diff t1 t2 = tdiv (sub_ℕ (us t1) (us t2)) 1000

abbrev pub timeval_add_msec : Timeval → ℕ → Timeval
timeval_add_msec t msec =
    let add = t.tv_usec + msec * 1000 in
    record { tv_sec = t.tv_sec + add / 1000000; tv_usec = add % 1000000 }

-- The address of a timer: the member of the object that holds it. Objects are named by the key
-- under which their list holds them.
pub data TimerRef : Type 0 where
  rt_timer ack_timer hello_timer : ℕ → TimerRef
  seek_timer bl_timer : ℕ → TimerRef
  rec_timer : ℕ → ℕ → TimerRef
  own_hello_timer worb_timer rt_log_timer : TimerRef

pub TimerRef-discrete : Discrete TimerRef
TimerRef-discrete = hlevel ℕ_discrete

abbrev pub is_timer : TimerRef → TimerRef → Bool
is_timer a b = elim (TimerRef-discrete a b) [ yes e ↦ true | no e ↦ false ]

-- The handlers of aodv_timeout.c, `hello_send`, and `print_rt_table` of debug.c.
pub data Handler : Type 0 where
  null_handler : Handler
  rreq_record_timeout rreq_blacklist_timeout route_discovery_timeout : Handler
  local_repair_timeout route_expire_timeout route_delete_timeout : Handler
  hello_timeout rrep_ack_timeout hello_send wait_on_reboot_timeout print_rt_table : Handler

abbrev pub is_null : Handler → Bool
is_null null_handler = true
is_null _ = false

-- struct timer, without its links; `data` is the object that the `TimerRef` names.
pub record Timer : Type 0 where
  pub used : Bool
  pub timeout : Timeval
  pub handler : Handler

pub record Timers : Type 0 where
  pub timers : TimerRef → Timer
  pub tq : List TimerRef
  pub exptq : List TimerRef

abbrev pub update_timer : (TimerRef → Timer) → TimerRef → Timer → TimerRef → Timer
update_timer f r t q = if is_timer r q then t else f q

abbrev pub put_timer : TimerRef → Timer → Timers → Timers
put_timer r t s = record s { timers = update_timer s.timers r t }

-- list_remove: a node is taken off the list that holds it.
unfoldable pub unlink : TimerRef → List TimerRef → List TimerRef
unlink r [] = []
unlink r (q ∷ l) = if is_timer r q then l else q ∷ unlink r l

unfoldable pub linked : TimerRef → List TimerRef → Bool
linked r [] = false
linked r (q ∷ l) = if is_timer r q then true else linked r l

-- timer_init: the links are reset, the timer is not used.
unfoldable pub timer_init : TimerRef → Handler → Timers → Timers
timer_init r f s = put_timer r (record { used = false; timeout = zero_time; handler = f }) s

abbrev pub set_handler : TimerRef → Handler → Timers → Timers
set_handler r f s = put_timer r (record (s.timers r) { handler = f }) s

-- timer_remove: the result is 1 if the timer was in a list, and 0 if not.
unfoldable pub timer_remove : TimerRef → Timers → ℕ × Timers
unfolding unlink linked
timer_remove r s =
    let res : ℕ = (if linked r s.tq then 1 else if linked r s.exptq then 1 else 0) in
    let off : Timer = record (s.timers r) { used = false } in
    let s' : Timers = put_timer r off s in
    (res, record s' { tq = unlink r s.tq; exptq = unlink r s.exptq })

-- The loop of `timer_add`: in front of the first timer that is due at least 1 ms later.
unfoldable pub insert_timer : (TimerRef → Timer) → TimerRef → List TimerRef → List TimerRef
insert_timer f r [] = r ∷ []
insert_timer f r (curr ∷ l) =
    if ltb_ℤ (timeval_diff (f r).timeout (f curr).timeout) (pos 0)
    then r ∷ curr ∷ l
    else curr ∷ insert_timer f r l

unfoldable pub timer_add : TimerRef → Timers → Timers
unfolding insert_timer
timer_add r s =
    if is_null (s.timers r).handler
    then s
    else if (s.timers r).used
    then s
    else let s' : Timers = put_timer r (record (s.timers r) { used = true }) s in
      record s' { tq = insert_timer s'.timers r s.tq }

-- timer_set_timeout: `now` is what its gettimeofday reads.
unfoldable pub timer_set_timeout : TimerRef → ℤ → Timeval → Timers → Timers
unfolding timer_remove timer_add
timer_set_timeout r (negsuc msec) now s =
    let s1 : Timers = (if (s.timers r).used then (timer_remove r s).1 else s) in
    put_timer r (record (s1.timers r) { timeout = now }) s1
timer_set_timeout r (pos msec) now s =
    let s1 : Timers = (if (s.timers r).used then (timer_remove r s).1 else s) in
    let usec : ℕ = now.tv_usec + msec * 1000 in
    let t : Timeval = record { tv_sec = now.tv_sec + usec / 1000000; tv_usec = usec % 1000000 } in
    timer_add r (put_timer r (record (s1.timers r) { timeout = t }) s1)

-- The first loop of `timer_timeout`: what is due goes from the front of `tq` to the end of `exptq`.
unfoldable pub expired_prefix :
    (TimerRef → Timer) → Timeval → List TimerRef → List TimerRef × List TimerRef
expired_prefix f now [] = ([], [])
expired_prefix f now (r ∷ l) =
    let (due, rest) = expired_prefix f now l in
    if ltb_ℤ (pos 0) (timeval_diff (f r).timeout now) then ([], r ∷ l) else (r ∷ due, rest)

unfoldable pub collect_expired : Timeval → Timers → Timers
unfolding expired_prefix
collect_expired now s =
    let (due, rest) = expired_prefix s.timers now s.tq in record s { tq = rest; exptq = due }

-- One round of the second loop up to the call of the handler: the first expired timer.
unfoldable pub pop_expired : Timers → Option (TimerRef × Timers)
pop_expired s = elim s.exptq [
  | [] ↦ none
  | r ∷ l ↦
      let s' : Timers = put_timer r (record (s.timers r) { used = false }) s in
      some (r, record s' { exptq = l })
]

-- What `timer_age_queue` returns of the first timer: the time that is left.
-- A negative second is kept apart: `none` stands for a NULL timeout.
unfoldable pub timer_age_remaining : Timeval → Timers → Option (ℤ × ℕ)
timer_age_remaining now s = elim s.tq [
  | [] ↦ none
  | r ∷ l ↦
      let t : Timeval = (s.timers r).timeout in
      if ltb t.tv_usec now.tv_usec
      then some (sub_ℕ t.tv_sec (now.tv_sec + 1), t.tv_usec + 1000000 - now.tv_usec)
      else some (sub_ℕ t.tv_sec now.tv_sec, t.tv_usec - now.tv_usec)
]
