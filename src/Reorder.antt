-- ===== src/Reorder.antt =====
-- c/reorder/reorder.c: one round of its two threads on x86, whose stores wait in a buffer of the
-- core before they reach memory, in order, while loads go on.
pub mod Fence
pub mod Program
mod Tests
use codelib.Base.{ℕ, ◌≡◌, Bool, true, Option, none, some, ◌&&◌, ◌==◌}

-- Where a thread is between its two calls of sync_thread.
pub data Pc : Type 0 where
  storing fencing loading finished : Pc

-- The first thread stores to X and loads Y into r1, the second stores to Y and loads X into r2;
-- `buf1` and `buf2` are the stores that wait.
pub record State : Type 0 where
  pub pc1 : Pc
  pub pc2 : Pc
  pub buf1 : Option ℕ
  pub buf2 : Option ℕ
  pub x : ℕ
  pub y : ℕ
  pub r1 : ℕ
  pub r2 : ℕ

-- `X = 0; Y = 0;` before both threads are let go; r1 and r2 are those of the round before.
abbrev pub reset : ℕ → ℕ → State
reset old1 old2 = record {
  pc1 = storing;
  pc2 = storing;
  buf1 = none;
  buf2 = none;
  x = 0;
  y = 0;
  r1 = old1;
  r2 = old2;
}

-- A step of one of the threads or of one of the buffers. `fence` is whether USE_CPU_FENCE is
-- defined: an mfence waits for the buffer to be empty, the other asm statement for nothing.
pub data Step (fence : Bool) : State → State → Type 0 where
  store1 : {s : State} → s.pc1 ≡ storing → Step fence s (record s { pc1 = fencing; buf1 = some 1 })
  fence1 :
      {s : State}
      → s.pc1 ≡ fencing
      → (fence ≡ true → s.buf1 ≡ none)
      → Step fence s (record s { pc1 = loading })
  load1 : {s : State} → s.pc1 ≡ loading → Step fence s (record s { pc1 = finished; r1 = s.y })
  flush1 : {s : State} (v : ℕ) → s.buf1 ≡ some v → Step fence s (record s { buf1 = none; x = v })
  store2 : {s : State} → s.pc2 ≡ storing → Step fence s (record s { pc2 = fencing; buf2 = some 1 })
  fence2 :
      {s : State}
      → s.pc2 ≡ fencing
      → (fence ≡ true → s.buf2 ≡ none)
      → Step fence s (record s { pc2 = loading })
  load2 : {s : State} → s.pc2 ≡ loading → Step fence s (record s { pc2 = finished; r2 = s.x })
  flush2 : {s : State} (v : ℕ) → s.buf2 ≡ some v → Step fence s (record s { buf2 = none; y = v })

-- The states that a round can come to.
pub data Reachable (fence : Bool) (s : State) : State → Type 0 where
  here : Reachable fence s s
  after : {t u : State} → Reachable fence s t → Step fence t u → Reachable fence s u

-- Both threads have come to the barrier at the end.
abbrev pub IsOver : State → Type 0
IsOver s = (s.pc1 ≡ finished) × (s.pc2 ≡ finished)

-- `r1 == 0 && r2 == 0`
abbrev pub detects : State → Bool
detects s = (s.r1 == 0) && (s.r2 == 0)
