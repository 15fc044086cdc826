-- ===== src/Aio/Tests.antt =====
-- Runs of cl_aio.c, and the theorems there.
use codelib.Base.{◌≡◌, refl, true, false, arith}
use codelib.Base.Int.{pos}
use codelib.Aio.{
  Answers, State, ended, Reaches, start, next, opens, reads, print, finish, collect, shut, leave,
}
use codelib.Aio.Ends.{AtEnd, Calls, Reaches-AtEnd, Reaches-ended}

abbrev all_well : Answers
all_well = record { opened = pos 3; aio_read = pos 0 }

-- The handler runs to its end before main looks at fin.
in_turn : (s : State) × Reaches true all_well s × (s.main ≡ ended 0)
in_turn = (
  _,
  next
      (next
        (next
          (next (next (next (next start (opens refl refl)) (reads refl refl)) (print refl refl))
            (finish refl refl))
          (collect refl refl))
        (shut refl refl))
      (leave refl (λ h. absurd (omega (arith, h))) (λ h. refl)),
  refl,
)

Reaches-AtEnd_example : AtEnd true all_well 0 in_turn.0
Reaches-AtEnd_example = Reaches-AtEnd 0 in_turn.1 in_turn.2

ended_in_between :
    (s : State) × Reaches false all_well s × (s.main ≡ ended 0) × (s.fd ≡ pos 3) × Calls 1 1 0 0 s
ended_in_between = Reaches-ended all_well refl refl
