-- ===== src/Reorder/Program/Barrier.antt =====
-- What the barriers of c/reorder/reorder.c keep apart, and what main can count in any round.
use codelib.Base.{
  ℕ, ◌+◌, ◌%◌, ◌^◌, ◌<◌, ◌≡◌, Bool, true, false, Option, none, some, ◌⊎◌, inl, inr, ◌==◌,
  Bool-cases, arith,
}
use codelib.Reorder.Program.{
  Worker, arriving, spinning, storing, fencing, loading, leaving, ending, Main, spin, leave, finish,
  check, Program, initial, Move, arrive1, go1, store1, fence1, load1, leave1, again1, flush1,
  arrive2, go2, store2, fence2, load2, leave2, again2, flush2, set_x, set_y, flush_x, flush_y,
  arrive, go, end, all_ended, count, Runs, here, after, adds, additions,
}
use codelib.Reorder.Program.Additions.{additions-le}

-- Whether a thread has added to start and waits for the others, and the same at end.
abbrev pub spins : Worker → ℕ
spins spinning = 1
spins _ = 0

abbrev pub ends : Worker → ℕ
ends ending = 1
ends _ = 0

abbrev pub main_spins : Main → ℕ
main_spins spin = 1
main_spins _ = 0

abbrev pub main_ends : Main → ℕ
main_ends finish = 1
main_ends _ = 0

-- The positions while the threads come together at start, and those from then on until all have
-- come together at end.
abbrev pub gathers : Worker → Bool
gathers arriving = true
gathers spinning = true
gathers ending = true
gathers _ = false

abbrev pub main_gathers : Main → Bool
main_gathers leave = false
main_gathers _ = true

abbrev pub works : Worker → Bool
works arriving = false
works _ = true

abbrev pub main_works : Main → Bool
main_works spin = true
main_works leave = true
main_works finish = true
main_works _ = false

-- Whether a thread has no store that waits.
abbrev pub quiet : Worker → Bool
quiet fencing = false
quiet loading = false
quiet leaving = false
quiet _ = true

-- Whether a thread has loaded.
abbrev pub loaded : Worker → Bool
loaded leaving = true
loaded ending = true
loaded _ = false

-- Whether main may still look at r1 and r2, and whether its buffer is empty.
abbrev pub looks : Main → Bool
looks finish = true
looks check = true
looks _ = false

abbrev pub drained : Main → Bool
drained spin = true
drained finish = true
drained check = true
drained _ = false

pub record Gather (fence : Bool) (s : Program) : Type 0 where
  pub at_end : s.stop % 3 ≡ 0
  pub counted : s.start % 3 ≡ spins s.w1 + spins s.w2 + main_spins s.m
  pub few : spins s.w1 + spins s.w2 + main_spins s.m < 3
  pub place1 : gathers s.w1 ≡ true
  pub place2 : gathers s.w2 ≡ true
  pub place : main_gathers s.m ≡ true
  pub empty1 : s.buf1 ≡ none
  pub empty2 : s.buf2 ≡ none
  pub empty_x : drained s.m ≡ true → s.buf_x ≡ none
  pub empty_y : drained s.m ≡ true → s.buf_y ≡ none
  pub seen : fence ≡ true → looks s.m ≡ true → (s.r1 ≡ 1) ⊎ (s.r2 ≡ 1)

-- What a thread's position says of its store, with the fence.
abbrev pub Stored : Worker → Option ℕ → ℕ → Type 0
Stored arriving buf v = buf ≡ none
Stored spinning buf v = buf ≡ none
Stored storing buf v = buf ≡ none
Stored fencing buf v = (buf ≡ some 1) ⊎ ((buf ≡ none) × (v ≡ 1))
Stored loading buf v = (buf ≡ none) × (v ≡ 1)
Stored leaving buf v = (buf ≡ none) × (v ≡ 1)
Stored ending buf v = (buf ≡ none) × (v ≡ 1)

pub record Work (fence : Bool) (s : Program) : Type 0 where
  pub at_start : s.start % 3 ≡ 0
  pub counted : s.stop % 3 ≡ ends s.w1 + ends s.w2 + main_ends s.m
  pub few : ends s.w1 + ends s.w2 + main_ends s.m < 3
  pub place1 : works s.w1 ≡ true
  pub place2 : works s.w2 ≡ true
  pub place : main_works s.m ≡ true
  pub empty_x : s.buf_x ≡ none
  pub empty_y : s.buf_y ≡ none
  pub quiet1 : quiet s.w1 ≡ true → s.buf1 ≡ none
  pub quiet2 : quiet s.w2 ≡ true → s.buf2 ≡ none
  pub stored1 : fence ≡ true → Stored s.w1 s.buf1 s.x
  pub stored2 : fence ≡ true → Stored s.w2 s.buf2 s.y
  pub seen : fence ≡ true → loaded s.w1 ≡ true → loaded s.w2 ≡ true → (s.r1 ≡ 1) ⊎ (s.r2 ≡ 1)

-- A step while the threads gather, and one while they work, before the counters wrap.
Gather-step :
    {fence : Bool} {s t : Program} (move : Move fence s t)
    → s.start + s.stop + adds move < 2 ^ 64
    → Gather fence s
    → Gather fence t ⊎ Work fence t
Gather-step {s = s} (arrive1 e b) n g = elim (Bool-cases (spins s.w2 + main_spins s.m == 2)) [
  | inl last ↦ inr (ground (arith, g))
  | inr more ↦ inl (ground (arith, g))
]
Gather-step (go1 e z) n g = ground (arith, g)
Gather-step (store1 e) n g = ground (arith, g)
Gather-step (fence1 e f) n g = ground (arith, g)
Gather-step (load1 e) n g = ground (arith, g)
Gather-step (leave1 e b) n g = ground (arith, g)
Gather-step (again1 e z) n g = inl (ground (arith, g))
Gather-step (flush1 v e) n g = ground (arith, g)
Gather-step {s = s} (arrive2 e b) n g = elim (Bool-cases (spins s.w1 + main_spins s.m == 2)) [
  | inl last ↦ inr (ground (arith, g))
  | inr more ↦ inl (ground (arith, g))
]
Gather-step (go2 e z) n g = ground (arith, g)
Gather-step (store2 e) n g = ground (arith, g)
Gather-step (fence2 e f) n g = ground (arith, g)
Gather-step (load2 e) n g = ground (arith, g)
Gather-step (leave2 e b) n g = ground (arith, g)
Gather-step (again2 e z) n g = inl (ground (arith, g))
Gather-step (flush2 v e) n g = ground (arith, g)
Gather-step (set_x e) n g = inl (ground (arith, g))
Gather-step (set_y e) n g = inl (ground (arith, g))
Gather-step (flush_x v e) n g = inl (ground (arith, g))
Gather-step (flush_y v f e) n g = inl (ground (arith, g))
Gather-step {s = s} (arrive e b c) n g = elim (Bool-cases (spins s.w1 + spins s.w2 == 2)) [
  | inl last ↦ inr (ground (arith, g))
  | inr more ↦ inl (ground (arith, g))
]
Gather-step (go e z) n g = ground (arith, g)
Gather-step (end e b c) n g = ground (arith, g)
Gather-step (all_ended e z) n g = inl (ground (arith, g))
Gather-step (count e) n g = inl (ground (arith, g))

Work-step :
    {fence : Bool} {s t : Program} (move : Move fence s t)
    → s.start + s.stop + adds move < 2 ^ 64
    → Work fence s
    → Gather fence t ⊎ Work fence t
Work-step (arrive1 e b) n k = ground (arith, k)
Work-step (go1 e z) n k = inr (ground (arith, k))
Work-step (store1 e) n k = inr (ground (arith, k))
Work-step (fence1 e f) n k = inr (ground (arith, k))
Work-step (load1 e) n k = inr (ground (arith, k))
Work-step {s = s} (leave1 e b) n k = elim (Bool-cases (ends s.w2 + main_ends s.m == 2)) [
  | inl last ↦ inl (ground (arith, k))
  | inr more ↦ inr (ground (arith, k))
]
Work-step (again1 e z) n k = ground (arith, k)
Work-step (flush1 v e) n k = inr (ground (arith, k))
Work-step (arrive2 e b) n k = ground (arith, k)
Work-step (go2 e z) n k = inr (ground (arith, k))
Work-step (store2 e) n k = inr (ground (arith, k))
Work-step (fence2 e f) n k = inr (ground (arith, k))
Work-step (load2 e) n k = inr (ground (arith, k))
Work-step {s = s} (leave2 e b) n k = elim (Bool-cases (ends s.w1 + main_ends s.m == 2)) [
  | inl last ↦ inl (ground (arith, k))
  | inr more ↦ inr (ground (arith, k))
]
Work-step (again2 e z) n k = ground (arith, k)
Work-step (flush2 v e) n k = inr (ground (arith, k))
Work-step (set_x e) n k = ground (arith, k)
Work-step (set_y e) n k = ground (arith, k)
Work-step (flush_x v e) n k = ground (arith, k)
Work-step (flush_y v f e) n k = ground (arith, k)
Work-step (arrive e b c) n k = ground (arith, k)
Work-step (go e z) n k = inr (ground (arith, k))
Work-step {s = s} (end e b c) n k = elim (Bool-cases (ends s.w1 + ends s.w2 == 2)) [
  | inl last ↦ inl (ground (arith, k))
  | inr more ↦ inr (ground (arith, k))
]
Work-step (all_ended e z) n k = ground (arith, k)
Work-step (count e) n k = ground (arith, k)

pub Runs-phase :
    {fence : Bool} {s : Program} (run : Runs fence initial s)
    → additions run < 2 ^ 64
    → Gather fence s ⊎ Work fence s
Runs-phase here n = inl (ground arith)
Runs-phase (after run move) n = elim (Runs-phase run (omega (arith, n))) [
  | inl g ↦ Gather-step move (omega (arith, n, additions-le run)) g
  | inr k ↦ Work-step move (omega (arith, n, additions-le run)) k
]
