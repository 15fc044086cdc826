-- ===== src/Clock.antt =====
-- c/cl_rdtsc_clock.c: the rate of the time stamp counter. The loop between the two readings is empty.
pub mod Rate
mod Tests
use codelib.Base.{ℕ, ◌+◌, ◌-◌, ◌*◌, ◌%◌, ◌^◌, bit_or}

-- The value that rdtsc leaves in edx and eax, the upper halves of whose registers it clears.
unfoldable pub rdtsc_ll : ℕ × ℕ → ℕ
rdtsc_ll (h, l) = bit_or (h * 2 ^ 32 % 2 ^ 64) l

-- `struct timeval`: tv_sec and tv_usec
pub record Timeval : Type 0 where
  pub sec : ℕ
  pub usec : ℕ

-- What is printed is the first over 1000.0 times the second.
pub record Printed : Type 0 where
  pub ticks : ℕ
  pub us : ℕ

-- `tmp`: the differences are of `long`, the sum an `unsigned long`.
unfoldable pub elapsed : Timeval → Timeval → ℕ
elapsed begin end =
    ((end.sec + 2 ^ 64 - begin.sec) * 1000000 + (end.usec + 2 ^ 64 - begin.usec)) % 2 ^ 64

-- Of what rdtsc and gettimeofday give, first and last.
unfoldable pub main : ℕ × ℕ → Timeval → ℕ × ℕ → Timeval → Printed
main start begin stop end = record {
  ticks = (rdtsc_ll stop + 2 ^ 64 - rdtsc_ll start) % 2 ^ 64;
  us = elapsed begin end;
}
