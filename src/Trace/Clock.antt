-- ===== src/Trace/Clock.antt =====
-- What the operating system answers is the same throughout, so the clock is one function of the readings.
use aodv.Base.{ℕ, ◌+◌, ◌≤◌, ◌≡◌, subst, sym, ◌∙◌, List, [], ◌∷◌, All}
use aodv.Timer.{us}
use aodv.Node.{State, Env}
use aodv.Protocol.Loop.{Event, tick, datagram, kernel, handle, handle_all}
use aodv.Trace.Step.{
  Step, Steps, ran, forgets, here, then_step, reads_clock, inits, removes, sets, handles,
  writes_table, writes_seeks, remembers, writes_blacklist, writes_seqno, writes_rreq_id,
  writes_forward_time, ends_wait, writes_buffer, sends, writes_log, asks_kernel, asks_rtnl,
}
use aodv.Socket.Frame.{send-env}
use aodv.Trace.Events.{Round, works, collects, pops, handle_all-inv}
use aodv.Trace.Flood.{ticks_at}

module _ (e : Env) where
  Step-env : {s t : State} → Step s t → s.env ≡ e → t.env ≡ e
  Step-env (reads_clock s n) h = h
  Step-env (inits s r f x _) h = h
  Step-env (removes s r) h = h
  Step-env (sets s r msec now _) h = h
  Step-env (handles s r f x _) h = h
  Step-env (writes_table s t m) h = h
  Step-env (writes_seeks s l) h = h
  Step-env (remembers s a i n now _) h = h
  Step-env (writes_blacklist s l) h = h
  Step-env (writes_seqno s n) h = h
  Step-env (writes_rreq_id s n) h = h
  Step-env (writes_forward_time s t) h = h
  Step-env (ends_wait s r x) h = h
  Step-env (writes_buffer s b) h = h
  Step-env (sends s d l t) h = send-env d l t s ∙ h
  Step-env (writes_log s l) h = h
  Step-env (asks_kernel s n l) h = h
  Step-env (asks_rtnl s n l) h = h

  pub Steps-env : {s t : State} → Steps s t → s.env ≡ e → t.env ≡ e
  Steps-env (here _) h = h
  Steps-env (then_step p st) h = Step-env st (Steps-env p h)

  Round-env : (s t : State) → Round s t → s.env ≡ e → t.env ≡ e
  Round-env s t (works (ran p)) h = Steps-env p h
  Round-env s t (works (forgets _ l)) h = h
  Round-env s t (collects _ now) h = h
  Round-env s t (pops _ r q x) h = h

  handle-env : (v : Event) (s : State) → s.env ≡ e → (handle v s).env ≡ e
  unfolding handle_all
  handle-env v s h = handle_all-inv (λ t. t.env ≡ e) Round-env (v ∷ []) s h

  -- Rounds of the timers by a clock that never reads later than 1 ms before `due`.
  module _ (due : ℕ) (early : (n : ℕ) → us (e.clock n) + 1000 ≤ due) where
    pub ticks_at-early :
        (l : List Event) (s : State) → s.env ≡ e → All (λ now. us now + 1000 ≤ due) (ticks_at l s)
    unfolding ticks_at
    ticks_at-early [] s h = tt
    ticks_at-early (tick ∷ l) s h = (
      subst (λ (x : Env). us (x.clock s.reads) + 1000 ≤ due) (sym h) (early s.reads),
      ticks_at-early l (handle tick s) (handle-env tick s h),
    )
    ticks_at-early (datagram p ∷ l) s h =
        ticks_at-early l (handle (datagram p) s) (handle-env (datagram p) s h)
    ticks_at-early (kernel m ∷ l) s h =
        ticks_at-early l (handle (kernel m) s) (handle-env (kernel m) s h)
