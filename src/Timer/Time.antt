-- ===== src/Timer/Time.antt =====
-- The arithmetic of times.
use aodv.Base.{ℕ, ◌+◌, ◌*◌, ◌<◌, ◌≡◌, arith, pos}
use aodv.Timer.Defs.{Timeval, us, timeval_diff, timeval_add_msec}

add_msec-us : (t : Timeval) (m : ℕ) → us (timeval_add_msec t m) ≡ us t + 1000 * m
add_msec-us t m = ground arith

diff_of : (a b : Timeval) (m : ℕ) → us a ≡ us b + 1000 * m → timeval_diff a b ≡ pos m
diff_of a b m e = ground arith

-- Adding milliseconds and taking the difference gives them back, and the sum is a time whose
-- microseconds are below a second.
pub timeval_diff-add_msec :
    (t : Timeval) (m : ℕ)
    → (timeval_diff (timeval_add_msec t m) t ≡ pos m) × ((timeval_add_msec t m).tv_usec < 1000000)
timeval_diff-add_msec t m = (diff_of (timeval_add_msec t m) t m (add_msec-us t m), ground arith)
