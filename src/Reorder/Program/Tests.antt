-- ===== src/Reorder/Program/Tests.antt =====
-- Rounds of c/reorder/reorder.c with its barriers, and the theorems on its runs there.
use mathlib.Core.Bool.{false≢true}
use codelib.Base.{arith, ◌≡◌, refl, Bool, true, false, none}
use codelib.Reorder.Program.{
  storing, ending, reset_x, leave, check, Program, initial, Move, arrive1, go1, store1, fence1,
  load1, leave1, flush1, arrive2, go2, store2, fence2, load2, leave2, flush2, set_x, set_y, flush_x,
  flush_y, arrive, go, end, all_ended, count, Runs, here, after,
}
use codelib.Reorder.Program.Counts.{Runs-detected, Runs-alone, in_round}
use codelib.Reorder.Program.Progress.{Runs-moves}

-- All three have come through the barrier at start.
abbrev released : Program
released = record {
  w1 = storing;
  w2 = storing;
  m = leave;
  buf1 = none;
  buf2 = none;
  buf_x = none;
  buf_y = none;
  x = 0;
  y = 0;
  r1 = 0;
  r2 = 0;
  start = 3;
  stop = 0;
  detected = 0;
}

abbrev releases : (fence : Bool) → Runs fence initial released
releases fence =
    after
      (after
        (after
          (after
            (after
              (after
                (after (after (after (after here (set_x refl)) (set_y refl)) (flush_x 0 refl))
                  (flush_y 0 refl refl))
                (arrive refl refl refl))
              (arrive1 refl refl))
            (arrive2 refl refl))
          (go refl refl))
        (go1 refl refl))
      (go2 refl refl)

-- Main is before its test, after a fenced round and after one that is not.
abbrev fenced : Program
fenced = record {
  w1 = ending;
  w2 = ending;
  m = check;
  buf1 = none;
  buf2 = none;
  buf_x = none;
  buf_y = none;
  x = 1;
  y = 1;
  r1 = 0;
  r2 = 1;
  start = 3;
  stop = 3;
  detected = 0;
}

abbrev Runs-fenced : Runs true initial fenced
Runs-fenced =
    after
      (after
        (after
          (after
            (after
              (after
                (after
                  (after
                    (after
                      (after (after (after (releases true) (store1 refl)) (flush1 1 refl))
                        (fence1 refl (λ h. refl)))
                      (load1 refl))
                    (leave1 refl refl))
                  (store2 refl))
                (flush2 1 refl))
              (fence2 refl (λ h. refl)))
            (load2 refl))
          (leave2 refl refl))
        (end refl refl refl))
      (all_ended refl refl)

abbrev reordered : Program
reordered = record {
  w1 = ending;
  w2 = ending;
  m = check;
  buf1 = none;
  buf2 = none;
  buf_x = none;
  buf_y = none;
  x = 1;
  y = 1;
  r1 = 0;
  r2 = 0;
  start = 3;
  stop = 3;
  detected = 0;
}

Runs-reordered : Runs false initial reordered
Runs-reordered =
    after
      (after
        (after
          (after
            (after
              (after
                (after
                  (after
                    (after
                      (after (after (after (releases false) (store1 refl)) (store2 refl))
                        (fence1 refl (λ h. absurd (false≢true h))))
                      (fence2 refl (λ h. absurd (false≢true h))))
                    (load1 refl))
                  (load2 refl))
                (flush1 1 refl))
              (flush2 1 refl))
            (leave1 refl refl))
          (leave2 refl refl))
        (end refl refl refl))
      (all_ended refl refl)

-- What main counts then.
counts_reordered : Runs false initial (record reordered { m = reset_x; detected = 1 })
counts_reordered = after Runs-reordered (count refl)

Runs-detected_example : fenced.detected ≡ 0
Runs-detected_example = Runs-detected fenced Runs-fenced (omega arith)

Runs-alone_example :
    (in_round fenced.w1 ≡ false)
    × (in_round fenced.w2 ≡ false)
    × (fenced.buf1 ≡ none)
    × (fenced.buf2 ≡ none)
Runs-alone_example = Runs-alone true fenced Runs-fenced (omega arith) refl

Runs-moves_example : (t : Program) × Move true fenced t
Runs-moves_example = Runs-moves true fenced Runs-fenced (omega arith)
