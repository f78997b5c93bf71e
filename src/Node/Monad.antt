-- ===== src/Node/Monad.antt =====
-- The monad of the daemon's functions: each takes the state and returns a result and the state.
-- `exit(-1)` after a failed malloc is not modelled: an allocation succeeds.
use aodv.Base.{◌+◌, Bool, ℤ, if◌then◌else◌}
use aodv.Timer.{Timeval, Timers, TimerRef, Handler, Timer}
use aodv.Timer
use aodv.Node.Defs.{State, HostInfo}

abbrev pub ⊤ : Type 0
⊤ = Unit {0}

abbrev pub M : Type 0 → Type 0
M A = State → A × State

abbrev pub pure : {A : Type 0} → A → M A
pure a s = (a, s)

infixl 5 ◌>>=◌ ◌>>◌
abbrev pub ◌>>=◌ : {A B : Type 0} → M A → (A → M B) → M B
◌>>=◌ m f s = let (a, s') = m s in f a s'

abbrev pub ◌>>◌ : {A B : Type 0} → M A → M B → M B
m >> k = m >>= λ _. k

abbrev pub skip : M ⊤
skip s = (tt, s)

abbrev pub when : Bool → M ⊤ → M ⊤
when c m = if c then m else skip

abbrev pub get : M State
get s = (s, s)

abbrev pub gets : {A : Type 0} → (State → A) → M A
gets f s = (f s, s)

abbrev pub modify : (State → State) → M ⊤
modify f s = (tt, f s)

-- The state that a function leaves.
abbrev pub after : {A : Type 0} → M A → State → State
after m s = (m s).1

unfoldable pub gettimeofday : M Timeval
gettimeofday s = (s.env.clock s.reads, record s { reads = s.reads + 1 })

abbrev pub on_timers : (Timers → Timers) → M ⊤
on_timers f = modify λ s. record s { timer = f s.timer }

abbrev pub on_host : (HostInfo → HostInfo) → M ⊤
on_host f = modify λ s. record s { this_host = f s.this_host }

-- t->used
abbrev pub is_used : TimerRef → M Bool
is_used r = gets λ s. (s.timer.timers r).used

abbrev pub init_timer : TimerRef → Handler → M ⊤
init_timer r f = on_timers (Timer.timer_init r f)

abbrev pub remove_timer : TimerRef → M ⊤
remove_timer r = on_timers λ t. (Timer.timer_remove r t).1

abbrev pub set_timeout : TimerRef → ℤ → M ⊤
set_timeout r msec = do now ← gettimeofday; on_timers (Timer.timer_set_timeout r msec now)
