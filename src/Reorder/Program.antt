-- ===== src/Reorder/Program.antt =====
-- c/reorder/reorder.c as a whole: the two threads and main, round after round, with sync_thread.
mod Additions
pub mod Barrier
pub mod Counts
pub mod Progress
mod Tests
use codelib.Base.{
  ℕ, suc, ◌+◌, ◌%◌, ◌^◌, ◌≡◌, Bool, true, Option, none, some, ◌&&◌, ◌==◌, if◌then◌else◌,
}

-- Where a thread is: before its __sync_fetch_and_add on start, in the loop behind it, before each of
-- its three statements, before the addition on end, and in the loop behind that.
pub data Worker : Type 0 where
  arriving spinning storing fencing loading leaving ending : Worker

-- Where main is: before X = 0, before Y = 0, and as the threads; then before its test.
pub data Main : Type 0 where
  reset_x reset_y join spin leave finish check : Main

-- The stores that wait for X and Y of each of the three cores, and the variables. A thread's store to
-- r1 or r2 is in memory at once: main reads it only behind the addition on end, before which the
-- thread's buffer is empty. `stop` is the variable `end`. The counters are of 64 bits and wrap.
pub record Program : Type 0 where
  pub w1 : Worker
  pub w2 : Worker
  pub m : Main
  pub buf1 : Option ℕ
  pub buf2 : Option ℕ
  pub buf_x : Option ℕ
  pub buf_y : Option ℕ
  pub x : ℕ
  pub y : ℕ
  pub r1 : ℕ
  pub r2 : ℕ
  pub start : ℕ
  pub stop : ℕ
  pub detected : ℕ

abbrev pub initial : Program
initial = record {
  w1 = arriving;
  w2 = arriving;
  m = reset_x;
  buf1 = none;
  buf2 = none;
  buf_x = none;
  buf_y = none;
  x = 0;
  y = 0;
  r1 = 0;
  r2 = 0;
  start = 0;
  stop = 0;
  detected = 0;
}

abbrev pub nthr : ℕ
nthr = 3

-- What a thread or a buffer does next. A locked addition, as an mfence, waits for the core's buffer to
-- be empty; `fence` is whether USE_CPU_FENCE is defined.
pub data Move (fence : Bool) : Program → Program → Type 0 where
  arrive1 :
      {s : Program}
      → s.w1 ≡ arriving
      → s.buf1 ≡ none
      → Move fence s (record s { w1 = spinning; start = suc s.start % 2 ^ 64 })
  go1 :
      {s : Program}
      → s.w1 ≡ spinning
      → s.start % nthr ≡ 0
      → Move fence s (record s { w1 = storing })
  store1 : {s : Program} → s.w1 ≡ storing → Move fence s (record s { w1 = fencing; buf1 = some 1 })
  fence1 :
      {s : Program}
      → s.w1 ≡ fencing
      → (fence ≡ true → s.buf1 ≡ none)
      → Move fence s (record s { w1 = loading })
  load1 : {s : Program} → s.w1 ≡ loading → Move fence s (record s { w1 = leaving; r1 = s.y })
  leave1 :
      {s : Program}
      → s.w1 ≡ leaving
      → s.buf1 ≡ none
      → Move fence s (record s { w1 = ending; stop = suc s.stop % 2 ^ 64 })
  again1 :
      {s : Program} → s.w1 ≡ ending → s.stop % nthr ≡ 0 → Move fence s (record s { w1 = arriving })
  flush1 : {s : Program} (v : ℕ) → s.buf1 ≡ some v → Move fence s (record s { buf1 = none; x = v })
  arrive2 :
      {s : Program}
      → s.w2 ≡ arriving
      → s.buf2 ≡ none
      → Move fence s (record s { w2 = spinning; start = suc s.start % 2 ^ 64 })
  go2 :
      {s : Program}
      → s.w2 ≡ spinning
      → s.start % nthr ≡ 0
      → Move fence s (record s { w2 = storing })
  store2 : {s : Program} → s.w2 ≡ storing → Move fence s (record s { w2 = fencing; buf2 = some 1 })
  fence2 :
      {s : Program}
      → s.w2 ≡ fencing
      → (fence ≡ true → s.buf2 ≡ none)
      → Move fence s (record s { w2 = loading })
  load2 : {s : Program} → s.w2 ≡ loading → Move fence s (record s { w2 = leaving; r2 = s.x })
  leave2 :
      {s : Program}
      → s.w2 ≡ leaving
      → s.buf2 ≡ none
      → Move fence s (record s { w2 = ending; stop = suc s.stop % 2 ^ 64 })
  again2 :
      {s : Program} → s.w2 ≡ ending → s.stop % nthr ≡ 0 → Move fence s (record s { w2 = arriving })
  flush2 : {s : Program} (v : ℕ) → s.buf2 ≡ some v → Move fence s (record s { buf2 = none; y = v })
  set_x : {s : Program} → s.m ≡ reset_x → Move fence s (record s { m = reset_y; buf_x = some 0 })
  set_y : {s : Program} → s.m ≡ reset_y → Move fence s (record s { m = join; buf_y = some 0 })
  flush_x :
      {s : Program} (v : ℕ) → s.buf_x ≡ some v → Move fence s (record s { buf_x = none; x = v })
  flush_y :
      {s : Program} (v : ℕ)
      → s.buf_x ≡ none
      → s.buf_y ≡ some v
      → Move fence s (record s { buf_y = none; y = v })
  arrive :
      {s : Program}
      → s.m ≡ join
      → s.buf_x ≡ none
      → s.buf_y ≡ none
      → Move fence s (record s { m = spin; start = suc s.start % 2 ^ 64 })
  go : {s : Program} → s.m ≡ spin → s.start % nthr ≡ 0 → Move fence s (record s { m = leave })
  end :
      {s : Program}
      → s.m ≡ leave
      → s.buf_x ≡ none
      → s.buf_y ≡ none
      → Move fence s (record s { m = finish; stop = suc s.stop % 2 ^ 64 })
  all_ended :
      {s : Program} → s.m ≡ finish → s.stop % nthr ≡ 0 → Move fence s (record s { m = check })
  count :
      {s : Program}
      → s.m ≡ check
      → Move fence s (record s {
        m = reset_x;
        detected = if (s.r1 == 0) && (s.r2 == 0) then suc s.detected else s.detected;
      })

pub data Runs (fence : Bool) (s : Program) : Program → Type 0 where
  here : Runs fence s s
  after : {t u : Program} → Runs fence s t → Move fence t u → Runs fence s u

-- The additions that a step makes to start and end, and those of a run.
abbrev pub adds : {fence : Bool} {s t : Program} → Move fence s t → ℕ
adds (arrive1 e b) = 1
adds (leave1 e b) = 1
adds (arrive2 e b) = 1
adds (leave2 e b) = 1
adds (arrive e b c) = 1
adds (end e b c) = 1
adds _ = 0

abbrev pub additions : {fence : Bool} {s t : Program} → Runs fence s t → ℕ
additions here = 0
additions (after run move) = additions run + adds move
