-- ===== src/Rf/Transfer/Clock.antt =====
-- The two loops of src/tta_rf.c that wait until a time limit: under a clock that runs, they end.
use libtta.Base.{ℕ, ◌+◌, ◌≤◌, ◌<◌, ◌≡◌, ℤ, false, arith}
use libtta.Context.{Timeval}
use libtta.Cc1120.Access.{Spi}
use libtta.Rf.Radio.{Rf, is_past}
use libtta.Rf.Radio.Laws.{micros}

-- `gettimeofday` gives the time of a clock that is not set back, and that runs through a sleep.
pub record RunningClock {W : Type 0} (spi : Spi W) : Type 0 where
  pub clock : W → ℕ
  pub gives : (w : W) → micros (spi.gettimeofday w).0 ≡ clock (spi.gettimeofday w).1
  pub normal : (w : W) → (spi.gettimeofday w).0.tv_usec < 1000000
  pub asks : (w : W) → clock w ≤ clock (spi.gettimeofday w).1
  pub sleeps : (n : ℕ) (w : W) → clock w + n ≤ clock (spi.usleep n w)
  pub reads : (fd : ℤ) (addr n : ℕ) (w : W) → clock w ≤ clock (spi.read fd addr n w).1

-- A time that is not past the limit is no later, also where the limit has too many microseconds.
pub not_past :
    (now limit : Timeval)
    → now.tv_usec < 1000000
    → is_past now limit ≡ false
    → micros now ≤ micros limit
unfolding is_past
not_past now limit normal e = ground arith
