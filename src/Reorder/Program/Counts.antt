-- ===== src/Reorder/Program/Counts.antt =====
-- What main of c/reorder/reorder.c counts over all rounds, and that no run is stuck.
use codelib.Base.{◌^◌, ◌<◌, ◌≡◌, refl, Bool, true, false, none, ◌⊎◌, inl, inr, arith}
use codelib.Reorder.Program.{
  Worker, storing, fencing, loading, leaving, Main, reset_x, reset_y, join, check, Program, initial,
  Move, arrive1, go1, store1, fence1, load1, leave1, again1, flush1, arrive2, go2, store2, fence2,
  load2, leave2, again2, flush2, set_x, set_y, flush_x, flush_y, arrive, go, end, all_ended, count,
  Runs, here, after, additions,
}
use codelib.Reorder.Program.Barrier.{Gather, Work, Runs-phase}

counts_nothing :
    {s t : Program} → Move true s t → Gather true s ⊎ Work true s → s.detected ≡ 0 → t.detected ≡ 0
counts_nothing (count e) (inl g) z = ground (arith, g)
counts_nothing (count e) (inr k) z = ground (arith, k)
counts_nothing (arrive1 e b) p z = z
counts_nothing (go1 e x) p z = z
counts_nothing (store1 e) p z = z
counts_nothing (fence1 e f) p z = z
counts_nothing (load1 e) p z = z
counts_nothing (leave1 e b) p z = z
counts_nothing (again1 e x) p z = z
counts_nothing (flush1 v e) p z = z
counts_nothing (arrive2 e b) p z = z
counts_nothing (go2 e x) p z = z
counts_nothing (store2 e) p z = z
counts_nothing (fence2 e f) p z = z
counts_nothing (load2 e) p z = z
counts_nothing (leave2 e b) p z = z
counts_nothing (again2 e x) p z = z
counts_nothing (flush2 v e) p z = z
counts_nothing (set_x e) p z = z
counts_nothing (set_y e) p z = z
counts_nothing (flush_x v e) p z = z
counts_nothing (flush_y v f e) p z = z
counts_nothing (arrive e b c) p z = z
counts_nothing (go e x) p z = z
counts_nothing (end e b c) p z = z
counts_nothing (all_ended e x) p z = z

-- With the fence main never counts a reordering: after any rounds with less than 2^64 additions to
-- the two counters together, in whatever order the three threads and the buffers of their cores take
-- their steps, `detected` is 0.
pub Runs-detected :
    (s : Program) (run : Runs true initial s) → additions run < 2 ^ 64 → s.detected ≡ 0
Runs-detected s here n = refl
Runs-detected s (after run move) n =
    let fewer : additions run < 2 ^ 64 = omega (arith, n) in
    counts_nothing move (Runs-phase run fewer) (Runs-detected _ run fewer)

-- Between the two barriers a thread stores and loads.
abbrev pub in_round : Worker → Bool
in_round storing = true
in_round fencing = true
in_round loading = true
in_round leaving = true
in_round _ = false

-- Main tests r1 and r2 or resets X and Y.
abbrev pub alone : Main → Bool
alone check = true
alone reset_x = true
alone reset_y = true
alone join = true
alone _ = false

-- With the fence or without, sync_thread keeps main apart from the threads: while main is from its
-- test up to its addition on start, neither thread is between its two barriers, and neither has
-- a store to X or Y that waits. There were less than 2^64 additions to the two counters together.
pub Runs-alone :
    (fence : Bool) (s : Program) (run : Runs fence initial s)
    → additions run < 2 ^ 64
    → alone s.m ≡ true
    → (in_round s.w1 ≡ false) × (in_round s.w2 ≡ false) × (s.buf1 ≡ none) × (s.buf2 ≡ none)
Runs-alone fence s run n h = elim (Runs-phase run n) [
  | inl g ↦ ground (arith, g)
  | inr k ↦ ground (arith, k)
]
