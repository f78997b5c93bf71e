-- ===== src/Trace/Events.antt =====
-- The events of the main loop are made of steps and of the moves of `timer_timeout`.
use aodv.Base.{
  ℕ, zero, suc, List, [], ◌∷◌, Option, none, some, ◌≡◌, refl, subst, inl, inr, length, Option-cases,
}
use aodv.Timer.{Timeval, TimerRef, Timers, collect_expired, pop_expired}
use aodv.Node.{State, gettimeofday}
use aodv.Protocol.Loop.{
  Event, handle_all, tick, datagram, kernel, handle, fire_next, run_handler, fire_all,
  timer_timeout, timer_age_queue,
}
use aodv.Trace.Step.{Ran, ran, Runs-gettimeofday}
use aodv.Trace.Messages.{Runs-read, Runs-callback, call_handler-Ran}

-- A handler's run, the collection of what is due, and the removal of one expired timer.
pub data Round : State → State → Type 0 where
  works : {s t : State} → Ran s t → Round s t
  collects :
      (s : State) (now : Timeval) → Round s (record s { timer = collect_expired now s.timer })
  pops :
      (s : State) (r : TimerRef) (t : Timers)
      → pop_expired s.timer ≡ some (r, t)
      → Round s (record s { timer = t })

pub data Rounds : State → State → Type 0 where
  halt : (s : State) → Rounds s s
  next : {s t u : State} → Round s t → Rounds t u → Rounds s u

some_inj : {s t : State} → some s ≡ some t → s ≡ t
some_inj e = cc

-- The timer that a round has popped, and the run of its handler.
abbrev pub Fires : Option (TimerRef × Timers) → State → State → Type 0
Fires o s s' = (r : TimerRef) × (t : Timers) × (o ≡ some (r, t)) × Ran (record s { timer = t }) s'

run_handler-Fires :
    (o : Option (TimerRef × Timers)) (s s' : State) → run_handler o s ≡ some s' → Fires o s s'
run_handler-Fires none s s' e = cc
run_handler-Fires (some (r, t)) s s' e =
    let run = call_handler-Ran r (t.timers r).handler (record s { timer = t }) refl in
    (r, t, refl, subst (Ran (record s { timer = t })) (some_inj e) run)

pub fire_next-Fires : (s s' : State) → fire_next s ≡ some s' → Fires (pop_expired s.timer) s s'
unfolding fire_next
fire_next-Fires s s' e = run_handler-Fires (pop_expired s.timer) s s' e

fire_all-Rounds : (n : ℕ) (s : State) → Rounds s (fire_all n s).1
unfolding fire_all
fire_all-Rounds zero s = halt s
fire_all-Rounds (suc n) s = elim (Option-cases (fire_next s)) [
  | inl e ↦ rw (e, fire_all) (halt s)
  | inr (s', e) ↦
      let (r, t, p, st) = fire_next-Fires s s' e in
      rw (e, fire_all) (next (pops s r t p) (next (works st) (fire_all-Rounds n s')))
]

timer_timeout-Rounds : (now : Timeval) (s : State) → Rounds s (timer_timeout now s).1
unfolding timer_timeout
timer_timeout-Rounds now s = next (collects s now) (
    fire_all-Rounds (length (collect_expired now s.timer).exptq)
      (record s { timer = collect_expired now s.timer }))

-- Every event is handled by rounds.
pub handle-Rounds : (v : Event) (s : State) → Rounds s (handle v s)
unfolding handle timer_age_queue
handle-Rounds tick s =
    next (works (ran (Runs-gettimeofday.run s)))
      (timer_timeout-Rounds (gettimeofday s).0 (gettimeofday s).1)
handle-Rounds (datagram p) s = next (works (ran ((Runs-read p).run s))) (halt _)
handle-Rounds (kernel m) s = next (works (ran ((Runs-callback m).run s))) (halt _)

-- A predicate that every round keeps holds after any events.
module _ (P : State → Type 0) (keep : (s t : State) → Round s t → P s → P t) where
  Rounds-inv : {s t : State} → Rounds s t → P s → P t
  Rounds-inv (halt _) h = h
  Rounds-inv (next r p) h = Rounds-inv p (keep _ _ r h)

  pub handle_all-inv : (l : List Event) (s : State) → P s → P (handle_all l s)
  unfolding handle_all
  handle_all-inv [] s h = h
  handle_all-inv (v ∷ l) s h = handle_all-inv l (handle v s) (Rounds-inv (handle-Rounds v s) h)
