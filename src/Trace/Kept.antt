-- ===== src/Trace/Kept.antt =====
-- The record of a RREQ, and the timer that ends it.
pub mod Rounds
use aodv.Base.{
  ℕ, ◌+◌, ◌≤◌, ◌≡◌, refl, sym, subst, ap, ◌∙◌, Bool, true, false, not, ◌&&◌, ◌==◌, List, [], ◌∷◌,
  arith, Bool-cases, inl, inr, ℤ, pos, negsuc, ltb_ℤ,
}
use aodv.Timer.{
  Timeval, us, timeval_diff, TimerRef, Timer, Timers, rec_timer, Handler, is_timer, linked, unlink,
  timer_init, timer_remove, timer_add, timer_set_timeout, set_handler, TimerRef-discrete,
}
use aodv.Timer.Order.{linked-unlink_ne}
use aodv.Protocol.Timeout.{owner, record_id}
use aodv.Node.{State}
use aodv.Protocol.Records.{has_record, remove_record, path_discovery_time}
use aodv.Trace.Step.{
  is_rec, is_forgetting, special-forgetting, Step, Steps, here, then_step, reads_clock, inits,
  removes, sets, handles, writes_table, writes_seeks, remembers, writes_blacklist, writes_seqno,
  writes_rreq_id, writes_forward_time, ends_wait, writes_buffer, sends, writes_log, asks_kernel,
  asks_rtnl,
}
use aodv.Socket.Frame.{send-timer, send-rreq_records}

-- Only the timers of records forget one.
abbrev pub ForgetsAlone : Timers → Type 0
ForgetsAlone t = (r : TimerRef) → is_forgetting (t.timers r).handler ≡ true → is_rec r ≡ true

-- The RREQ is recorded, and the timer of its record is due at `due` and has not expired.
pub record IsKept (a i due : ℕ) (s : State) : Type 0 where
  pub recorded : has_record a i s.rreq_records ≡ true
  pub until : us (s.timer.timers (rec_timer a i)).timeout ≡ due
  pub alone : ForgetsAlone s.timer
  pub unexpired : linked (rec_timer a i) s.timer.exptq ≡ false

apart_kind : (r : TimerRef) (a i : ℕ) → is_rec r ≡ false → is_timer r (rec_timer a i) ≡ false
apart_kind r a i e = ground (arith, e)

remove-timeout :
    (r q : TimerRef) (s : Timers) → ((timer_remove r s).1.timers q).timeout ≡ (s.timers q).timeout
unfolding timer_remove
remove-timeout r q s = ground arith

remove-handler :
    (r q : TimerRef) (s : Timers) → ((timer_remove r s).1.timers q).handler ≡ (s.timers q).handler
unfolding timer_remove
remove-handler r q s = ground arith

set_timeout-other :
    (r q : TimerRef) (msec : ℤ) (now : Timeval) (s : Timers)
    → is_timer r q ≡ false
    → (timer_set_timeout r msec now s).timers q ≡ s.timers q
unfolding timer_set_timeout timer_remove timer_add
set_timeout-other r q (pos n) now s e = ground (arith, e)
set_timeout-other r q (negsuc n) now s e = ground (arith, e)

pub set_timeout-handler :
    (r q : TimerRef) (msec : ℤ) (now : Timeval) (s : Timers)
    → ((timer_set_timeout r msec now s).timers q).handler ≡ (s.timers q).handler
unfolding timer_set_timeout timer_remove timer_add
set_timeout-handler r q (pos n) now s = ground arith
set_timeout-handler r q (negsuc n) now s = ground arith

pub set_timeout-unexpired :
    (r q : TimerRef) (msec : ℤ) (now : Timeval) (s : Timers)
    → linked q s.exptq ≡ false
    → linked q (timer_set_timeout r msec now s).exptq ≡ false
unfolding timer_set_timeout timer_remove timer_add
set_timeout-unexpired r q (pos n) now s h = ground (arith, h, linked-unlink_ne r q s.exptq h)
set_timeout-unexpired r q (negsuc n) now s h = ground (arith, h, linked-unlink_ne r q s.exptq h)

-- Two states with the same timers and the same records.
same-IsKept :
    (a i due : ℕ) (s t : State)
    → t.timer ≡ s.timer
    → t.rreq_records ≡ s.rreq_records
    → IsKept a i due s
    → IsKept a i due t
same-IsKept a i due s t timer records k = record {
  recorded = ap (has_record a i) records ∙ k.recorded;
  until = ap (λ (x : Timers). us (x.timers (rec_timer a i)).timeout) timer ∙ k.until;
  alone = subst ForgetsAlone (sym timer) k.alone;
  unexpired = ap (λ (x : Timers). linked (rec_timer a i) x.exptq) timer ∙ k.unexpired;
}

pub is_timer-eq : (r q : TimerRef) → is_timer r q ≡ true → r ≡ q
is_timer-eq r q y = ground (arith, y)

remove-unexpired :
    (r q : TimerRef) (s : Timers)
    → linked q s.exptq ≡ false
    → linked q (timer_remove r s).1.exptq ≡ false
unfolding timer_remove
remove-unexpired r q s h = linked-unlink_ne r q s.exptq h

-- The timer of a new record may forget it.
pub init-alone :
    (b j : ℕ) (s : Timers)
    → ForgetsAlone s
    → ForgetsAlone (timer_init (rec_timer b j) Handler.rreq_record_timeout s)
unfolding timer_init
init-alone b j s h q f = elim (Bool-cases (is_timer (rec_timer b j) q)) [
  | inl y ↦ ap is_rec (sym (is_timer-eq (rec_timer b j) q y))
  | inr e ↦ ground (arith, e, h q, f)
]

-- A record that is new is another one.
apart_record :
    (a i b j : ℕ) (s : State)
    → has_record a i s.rreq_records ≡ true
    → has_record b j s.rreq_records ≡ false
    → is_timer (rec_timer b j) (rec_timer a i) ≡ false
apart_record a i b j s h n = elim (Bool-cases (is_timer (rec_timer b j) (rec_timer a i))) [
  | inl y ↦
      let same : has_record b j s.rreq_records ≡ has_record a i s.rreq_records =
        ap (λ r. has_record (owner r) (record_id r) s.rreq_records)
          (is_timer-eq (rec_timer b j) (rec_timer a i) y) in
      cc
  | inr e ↦ e
]

module _ (a i due : ℕ) where
  remembers-IsKept :
      (s : State) (b j n : ℕ) (now : Timeval)
      → has_record b j s.rreq_records ≡ false
      → IsKept a i due s
      → IsKept a i due (record s {
        timer =
            timer_set_timeout
              (rec_timer b j)
              (pos path_discovery_time)
              now
              (timer_init (rec_timer b j) Handler.rreq_record_timeout s.timer);
        rreq_records = record { orig_addr = b; rreq_id = j } ∷ s.rreq_records;
        reads = n;
      })
  unfolding has_record timer_init
  remembers-IsKept s b j n now new k =
      let t : Timers = timer_init (rec_timer b j) Handler.rreq_record_timeout s.timer in
      let apart : is_timer (rec_timer b j) (rec_timer a i) ≡ false =
        apart_record a i b j s k.recorded new in
      record {
        recorded = ground (arith, k.recorded);
        until =
            ap (λ (x : Timer). us x.timeout)
              (set_timeout-other (rec_timer b j) (rec_timer a i) (pos path_discovery_time) now t
                apart)
            ∙ ground (arith, apart, k.until);
        alone = λ r f. init-alone b j s.timer k.alone r (
            ap is_forgetting
              (sym (set_timeout-handler (rec_timer b j) r (pos path_discovery_time) now t))
            ∙ f);
        unexpired =
            set_timeout-unexpired (rec_timer b j) (rec_timer a i) (pos path_discovery_time) now t
              k.unexpired;
      }

  Step-IsKept : {s t : State} → Step s t → IsKept a i due s → IsKept a i due t
  unfolding timer_init
  Step-IsKept (reads_clock s n) k = same-IsKept a i due s _ refl refl k
  Step-IsKept (inits s r f e plain) k = record {
    recorded = k.recorded;
    until = ground (arith, apart_kind r a i plain, k.until);
    alone = λ q. ground (arith, k.alone q, special-forgetting f e);
    unexpired = k.unexpired;
  }
  Step-IsKept (removes s r) k = record {
    recorded = k.recorded;
    until = ap us (remove-timeout r (rec_timer a i) s.timer) ∙ k.until;
    alone = λ q f. k.alone q (ap is_forgetting (sym (remove-handler r q s.timer)) ∙ f);
    unexpired = remove-unexpired r (rec_timer a i) s.timer k.unexpired;
  }
  Step-IsKept (sets s r msec now plain) k = record {
    recorded = k.recorded;
    until =
        ap (λ (x : Timer). us x.timeout)
          (set_timeout-other r (rec_timer a i) msec now s.timer (apart_kind r a i plain))
        ∙ k.until;
    alone =
        λ q f. k.alone q (ap is_forgetting (sym (set_timeout-handler r q msec now s.timer)) ∙ f);
    unexpired = set_timeout-unexpired r (rec_timer a i) msec now s.timer k.unexpired;
  }
  Step-IsKept (handles s r f e plain) k = record {
    recorded = k.recorded;
    until = ground (arith, apart_kind r a i plain, k.until);
    alone = λ q. ground (arith, k.alone q, special-forgetting f e);
    unexpired = k.unexpired;
  }
  Step-IsKept (writes_table s t m) k = same-IsKept a i due s _ refl refl k
  Step-IsKept (writes_seeks s l) k = same-IsKept a i due s _ refl refl k
  Step-IsKept (remembers s b j n now new) k = remembers-IsKept s b j n now new k
  Step-IsKept (writes_blacklist s l) k = same-IsKept a i due s _ refl refl k
  Step-IsKept (writes_seqno s n) k = same-IsKept a i due s _ refl refl k
  Step-IsKept (writes_rreq_id s n) k = same-IsKept a i due s _ refl refl k
  Step-IsKept (writes_forward_time s t) k = same-IsKept a i due s _ refl refl k
  Step-IsKept (ends_wait s r e) k = same-IsKept a i due s _ refl refl k
  Step-IsKept (writes_buffer s b) k = same-IsKept a i due s _ refl refl k
  Step-IsKept (sends s d l t) k =
      same-IsKept a i due s _ (send-timer d l t s) (send-rreq_records d l t s) k
  Step-IsKept (writes_log s l) k = same-IsKept a i due s _ refl refl k
  Step-IsKept (asks_kernel s n l) k = same-IsKept a i due s _ refl refl k
  Step-IsKept (asks_rtnl s n l) k = same-IsKept a i due s _ refl refl k

  pub Steps-IsKept : {s t : State} → Steps s t → IsKept a i due s → IsKept a i due t
  Steps-IsKept (here _) k = k
  Steps-IsKept (then_step p st) k = Step-IsKept st (Steps-IsKept p k)
