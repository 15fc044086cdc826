-- ===== src/Clock/Tests.antt =====
-- A measurement in which the counter wraps and a second ends.
use codelib.Base.{◌-◌, ◌%◌, ◌^◌, ◌≡◌, arith}
use codelib.Clock.{main}
use codelib.Clock.Rate.{time, main-registers}

main-registers_example :
    (main (0xffffffff, 0xfffffff0) (time 1999999) (0, 84) (time 2000001)
      ≡ record { ticks = 100; us = 2 })
    × (main (0xffffffff, 0xfffffff0) (time 2000001) (0, 84) (time 1999999)
        ≡ record { ticks = 100; us = (2 ^ 64 - 2) % 2 ^ 64 })
main-registers_example = main-registers 0xfffffffffffffff0 100 1999999 2 (omega arith) (omega arith)
