-- ===== src/Reorder/Tests.antt =====
-- A fenced round of the two threads, and the theorems on rounds there.
use codelib.Base.{◌≡◌, refl, true, false, none}
use codelib.Reorder.{
  finished, State, reset, store1, fence1, load1, flush1, store2, fence2, load2, flush2, Reachable,
  here, after, IsOver, detects,
}
use codelib.Reorder.Fence.{Reachable-detects, Reachable-reordered}

abbrev second_sees : State
second_sees = record {
  pc1 = finished;
  pc2 = finished;
  buf1 = none;
  buf2 = none;
  x = 1;
  y = 1;
  r1 = 0;
  r2 = 1;
}

-- The first thread runs to its end before the second starts.
one_by_one : Reachable true (reset 1 1) second_sees
one_by_one =
    after
      (after
        (after
          (after
            (after
              (after (after (after here (store1 refl)) (flush1 1 refl)) (fence1 refl λ h. refl))
              (load1 refl))
            (store2 refl))
          (flush2 1 refl))
        (fence2 refl λ h. refl))
      (load2 refl)

second_sees_undetected : detects second_sees ≡ false
second_sees_undetected = Reachable-detects 1 1 second_sees one_by_one (refl, refl)

reordered_without_fence :
    (s : State) × Reachable false (reset 1 1) s
    × IsOver s
    × (s.buf1 ≡ none)
    × (s.buf2 ≡ none)
    × (detects s ≡ true)
reordered_without_fence = Reachable-reordered 1 1
