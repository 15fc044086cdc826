-- ===== src/Reorder/Program/Additions.antt =====
-- How far the two counters of c/reorder/reorder.c have come.
use codelib.Base.{◌+◌, ◌≤◌, Bool, arith}
use codelib.Reorder.Program.{
  Program, initial, Move, arrive1, go1, store1, fence1, load1, leave1, again1, flush1, arrive2, go2,
  store2, fence2, load2, leave2, again2, flush2, set_x, set_y, flush_x, flush_y, arrive, go, end,
  all_ended, count, Runs, here, after, adds, additions,
}

-- The counters are at most the additions made.
adds-le :
    {fence : Bool} {s t : Program} (move : Move fence s t)
    → t.start + t.stop ≤ s.start + s.stop + adds move
adds-le (arrive1 e b) = omega arith
adds-le (go1 e z) = omega arith
adds-le (store1 e) = omega arith
adds-le (fence1 e f) = omega arith
adds-le (load1 e) = omega arith
adds-le (leave1 e b) = omega arith
adds-le (again1 e z) = omega arith
adds-le (flush1 v e) = omega arith
adds-le (arrive2 e b) = omega arith
adds-le (go2 e z) = omega arith
adds-le (store2 e) = omega arith
adds-le (fence2 e f) = omega arith
adds-le (load2 e) = omega arith
adds-le (leave2 e b) = omega arith
adds-le (again2 e z) = omega arith
adds-le (flush2 v e) = omega arith
adds-le (set_x e) = omega arith
adds-le (set_y e) = omega arith
adds-le (flush_x v e) = omega arith
adds-le (flush_y v f e) = omega arith
adds-le (arrive e b c) = omega arith
adds-le (go e z) = omega arith
adds-le (end e b c) = omega arith
adds-le (all_ended e z) = omega arith
adds-le (count e) = omega arith

pub additions-le :
    {fence : Bool} {s : Program} (run : Runs fence initial s) → s.start + s.stop ≤ additions run
additions-le here = omega arith
additions-le (after run move) = omega (arith, additions-le run, adds-le move)
