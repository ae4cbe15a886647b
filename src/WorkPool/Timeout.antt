-- ===== src/WorkPool/Timeout.antt =====
-- The deadline that `pop` of rtlsdr/src/main/cpp/src/workpool.c hands to `pthread_cond_timedwait`.
use rtl_tcp_andro.Base.{ℕ, ◌+◌, ◌*◌, ◌/◌, ◌%◌, ◌^◌, ◌<◌, ◌≡◌, arith}

abbrev pub timeout_ms : ℕ
timeout_ms = 1000

-- struct timeval and struct timespec
pub record Timeval : Type 0 where
  pub tv_sec : ℕ
  pub tv_usec : ℕ

pub record Timespec : Type 0 where
  pub tv_sec : ℕ
  pub tv_nsec : ℕ

-- `ts.tv_nsec` before it is brought below a second, the largest number of the computation.
unfoldable pub raw_nsec : Timeval → ℕ
raw_nsec tp = tp.tv_usec * 1000 + timeout_ms * 1_000_000

-- A time_t has 32 bits on the ABIs with 32 bits; from 2^31 on, it stands for a time before 1970.
unfoldable pub deadline : Timeval → Timespec
unfolding raw_nsec
deadline tp = record {
  tv_sec = (tp.tv_sec + raw_nsec tp / 1_000_000_000) % 2 ^ 32;
  tv_nsec = raw_nsec tp % 1_000_000_000;
}

-- For a time of day as `gettimeofday` gives it (less than a million microseconds), at least two seconds
-- before a time_t of 32 bits ends, the deadline is a proper timespec that such a time_t holds, lies
-- exactly 1000 ms later, and the nanoseconds stay in the range of a 32-bit `long` at every step.
pub deadline_lem :
    (tp : Timeval)
    → tp.tv_usec < 1_000_000
    → tp.tv_sec + 2 < 2 ^ 31
    → ((deadline tp).tv_nsec < 1_000_000_000)
      × ((deadline tp).tv_sec * 1_000_000_000 + (deadline tp).tv_nsec
          ≡ tp.tv_sec * 1_000_000_000 + tp.tv_usec * 1000 + 1_000_000_000)
      × ((deadline tp).tv_sec < 2 ^ 31)
      × (raw_nsec tp < 2 ^ 31)
unfolding deadline
deadline_lem tp h k = omega arith
