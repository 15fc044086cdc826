-- ===== src/Clock/Rate.antt =====
-- What cl_rdtsc_clock measures.
use native.Mathlib.Nat.{mod-eq_of_lt}
use codelib.Base.{ℕ, ◌+◌, ◌-◌, ◌*◌, ◌/◌, ◌%◌, ◌^◌, ◌<◌, ◌≡◌, ap, ◌∙◌, arith}
use codelib.Base.Bits.{bit_or-add}
use codelib.Clock.{rdtsc_ll, Timeval, elapsed, main}

-- The registers at a count, of which the processor keeps 64 bits.
abbrev pub registers : ℕ → ℕ × ℕ
registers c = (c / 2 ^ 32 % 2 ^ 32, c % 2 ^ 32)

-- The time of so many microseconds.
abbrev pub time : ℕ → Timeval
time t = record { sec = t / 1000000; usec = t % 1000000 }

rdtsc_ll_halves : (h l : ℕ) → h < 2 ^ 32 → l < 2 ^ 32 → rdtsc_ll (h, l) ≡ h * 2 ^ 32 + l
unfolding rdtsc_ll
rdtsc_ll_halves h l high low =
    rw (mod-eq_of_lt {n = h * 2 ^ 32} {m = 2 ^ 64} (omega (arith, high))) (bit_or-add 32 h l low)

rdtsc_ll-registers : (c : ℕ) → rdtsc_ll (registers c) ≡ c % 2 ^ 64
rdtsc_ll-registers c =
    omega (arith, rdtsc_ll_halves (c / 2 ^ 32 % 2 ^ 32) (c % 2 ^ 32) (omega arith) (omega arith))

elapsed_forth : (t m : ℕ) → t + m < 2 ^ 63 → elapsed (time t) (time (t + m)) ≡ m
unfolding elapsed
elapsed_forth t m h = omega arith

elapsed_back : (t m : ℕ) → t + m < 2 ^ 63 → elapsed (time (t + m)) (time t) ≡ (2 ^ 64 - m) % 2 ^ 64
unfolding elapsed
elapsed_back t m h = omega arith

-- Where the counter goes on by fewer than 2^64 ticks, past the end of its 64 bits or not, and the clock
-- by some microseconds, over the end of a second or not, what is printed is the quotient of just
-- these two numbers, the second times 1000.0: a division by zero if the clock has not gone on. Where
-- the clock has been set back it divides by 2^64 less the microseconds that it has gone back.
pub main-registers :
    (c n t m : ℕ)
    → n < 2 ^ 64
    → t + m < 2 ^ 63
    → (main (registers c) (time t) (registers (c + n)) (time (t + m))
        ≡ record { ticks = n; us = m })
      × (main (registers c) (time (t + m)) (registers (c + n)) (time t)
          ≡ record { ticks = n; us = (2 ^ 64 - m) % 2 ^ 64 })
unfolding main
main-registers c n t m few soon = (
  ap (λ us. record { ticks = ticks; us = us }) (elapsed_forth t m soon)
      ∙ ap (λ k. record { ticks = k; us = m }) counted,
  ap (λ us. record { ticks = ticks; us = us }) (elapsed_back t m soon)
      ∙ ap (λ k. record { ticks = k; us = (2 ^ 64 - m) % 2 ^ 64 }) counted,
)
  where
    ticks : ℕ
    ticks = (rdtsc_ll (registers (c + n)) + 2 ^ 64 - rdtsc_ll (registers c)) % 2 ^ 64

    counted : ticks ≡ n
    counted = omega (arith, rdtsc_ll-registers c, rdtsc_ll-registers (c + n), few)
