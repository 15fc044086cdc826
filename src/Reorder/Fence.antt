-- ===== src/Reorder/Fence.antt =====
-- What main of c/reorder/reorder.c can detect with the fence and without.
use mathlib.Core.Bool.{false≢true}
use codelib.Base.{ℕ, ◌≡◌, ◌≢◌, refl, Bool, true, false, Option, none, some, ◌⊎◌, inl, inr, arith}
use codelib.Reorder.{
  Pc, storing, fencing, loading, finished, State, reset, Step, store1, fence1, load1, flush1,
  store2, fence2, load2, flush2, Reachable, here, after, IsOver, detects,
}

-- What a thread's position says of its store, which waits as `buf` or is in memory as `m`.
abbrev Stored : Pc → Option ℕ → ℕ → Type 0
Stored storing buf m = buf ≡ none
Stored fencing buf m = (buf ≡ some 1) ⊎ ((buf ≡ none) × (m ≡ 1))
Stored loading buf m = (buf ≡ none) × (m ≡ 1)
Stored finished buf m = (buf ≡ none) × (m ≡ 1)

record Fenced (s : State) : Type 0 where
  pub stored1 : Stored s.pc1 s.buf1 s.x
  pub stored2 : Stored s.pc2 s.buf2 s.y
  pub seen : s.pc1 ≡ finished → s.pc2 ≡ finished → (s.r1 ≡ 1) ⊎ (s.r2 ≡ 1)

Step-Fenced : {s t : State} → Step true s t → Fenced s → Fenced t
Step-Fenced (store1 e) i = ground arith
Step-Fenced (fence1 e f) i = ground arith
Step-Fenced (load1 e) i = ground arith
Step-Fenced (flush1 v e) i = ground arith
Step-Fenced (store2 e) i = ground arith
Step-Fenced (fence2 e f) i = ground arith
Step-Fenced (load2 e) i = ground arith
Step-Fenced (flush2 v e) i = ground arith

reset-Fenced : (old1 old2 : ℕ) → Fenced (reset old1 old2)
reset-Fenced old1 old2 = ground arith

Reachable-Fenced : {s t : State} → Reachable true s t → Fenced s → Fenced t
Reachable-Fenced here i = i
Reachable-Fenced (after run step) i = Step-Fenced step (Reachable-Fenced run i)

-- With the fence, no round of the two threads that is over, in whatever order their steps and
-- those of the buffers came, is one that main counts as a reordering.
pub Reachable-detects :
    (old1 old2 : ℕ) (s : State) → Reachable true (reset old1 old2) s → IsOver s → detects s ≡ false
Reachable-detects old1 old2 s run (e1, e2) =
    elim ((Reachable-Fenced run (reset-Fenced old1 old2)).seen e1 e2) [
      | inl one ↦ rw one refl
      | inr one ↦ ground (arith, one)
    ]

-- Without the fence there is a round, whatever r1 and r2 were before, that is over with both stores
-- in memory and that main counts: both threads load before either store leaves its buffer.
pub Reachable-reordered :
    (old1 old2 : ℕ)
    → (s : State) × Reachable false (reset old1 old2) s
      × IsOver s
      × (s.buf1 ≡ none)
      × (s.buf2 ≡ none)
      × (detects s ≡ true)
Reachable-reordered old1 old2 = (
  record { pc1 = finished; pc2 = finished; buf1 = none; buf2 = none; x = 1; y = 1; r1 = 0; r2 = 0 },
  after
      (after
        (after
          (after
            (after
              (after (after (after here (store1 refl)) (store2 refl))
                (fence1 refl λ h. absurd (false≢true h)))
              (fence2 refl λ h. absurd (false≢true h)))
            (load1 refl))
          (load2 refl))
        (flush1 1 refl))
      (flush2 1 refl),
  (refl, refl),
  refl,
  refl,
  refl,
)

-- A first thread that is not at the barrier can take a step, or its buffer can.
first_moves : (fence : Bool) (s : State) → (s.pc1 ≢ finished) → (t : State) × Step fence s t
first_moves fence s h = go s.pc1 s.buf1 refl refl
  where
    go : (p : Pc) (b : Option ℕ) → s.pc1 ≡ p → s.buf1 ≡ b → (t : State) × Step fence s t
    go storing b e f = (_, store1 e)
    go fencing none e f = (_, fence1 e λ h. f)
    go fencing (some v) e f = (_, flush1 v f)
    go loading b e f = (_, load1 e)
    go finished b e f = absurd (h e)

second_moves : (fence : Bool) (s : State) → (s.pc2 ≢ finished) → (t : State) × Step fence s t
second_moves fence s h = go s.pc2 s.buf2 refl refl
  where
    go : (p : Pc) (b : Option ℕ) → s.pc2 ≡ p → s.buf2 ≡ b → (t : State) × Step fence s t
    go storing b e f = (_, store2 e)
    go fencing none e f = (_, fence2 e λ h. f)
    go fencing (some v) e f = (_, flush2 v f)
    go loading b e f = (_, load2 e)
    go finished b e f = absurd (h e)

is_finished : (p : Pc) → (p ≡ finished) ⊎ (p ≢ finished)
is_finished storing = inr (ground arith)
is_finished fencing = inr (ground arith)
is_finished loading = inr (ground arith)
is_finished finished = inl refl

-- With the fence or without, no state of a round is stuck: both threads are at the barrier, or some
-- step can be taken.
pub IsOver-or_moves : (fence : Bool) (s : State) → IsOver s ⊎ ((t : State) × Step fence s t)
IsOver-or_moves fence s = elim (is_finished s.pc1) [
  | inr more ↦ inr (first_moves fence s more)
  | inl e1 ↦ elim (is_finished s.pc2) [
    | inr more ↦ inr (second_moves fence s more)
    | inl e2 ↦ inl (e1, e2)
  ]
]
