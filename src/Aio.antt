-- ===== src/Aio.antt =====
-- c/cl_aio.c: one asynchronous read, its main thread and the handler that tells of the end of the
-- read, as a step relation. What is printed is a count.
pub mod Ends
mod Tests
use codelib.Base.{ℕ, suc, ◌≡◌, ◌≢◌, refl, Bool, true, false}
use codelib.Base.Int.{ℤ, pos, negsuc, minus_one, is_minus_one}

-- What open and aio_read return.
pub record Answers : Type 0 where
  pub opened : ℤ
  pub aio_read : ℤ

-- Where main is: before open, before aio_read, at its `while (!fin)`, and ended with a status.
pub data Main : Type 0 where
  opening requesting spinning : Main
  ended : ℕ → Main

-- Where finish_aio or sigusr1_handler is: not called for, called for, before each of its statements
-- behind the printf, and returned.
pub data Handler : Type 0 where
  idle queued finishing returning closing done : Handler

-- The globals fin and fd, with the calls so far of printf by a handler, aio_return and close.
pub record State : Type 0 where
  pub main : Main
  pub handler : Handler
  pub fin : ℕ
  pub fd : ℤ
  pub printed : ℕ
  pub aio_returns : ℕ
  pub closes : ℕ

abbrev pub initial : State
initial = record {
  main = opening;
  handler = idle;
  fin = 0;
  fd = pos 0;
  printed = 0;
  aio_returns = 0;
  closes = 0;
}

-- Whether a handler is between its first and its last statement.
abbrev pub is_inside : Handler → Bool
is_inside finishing = true
is_inside returning = true
is_inside closing = true
is_inside _ = false

-- One statement of main or of the handler. `mach` is whether __MACH__ is defined: then the handler is
-- a signal's and main waits while it runs; else it has a thread of its own. The process ends with main.
pub data Step (mach : Bool) (a : Answers) : State → State → Type 0 where
  open_fails :
      {s : State}
      → s.main ≡ opening
      → is_minus_one a.opened ≡ true
      → Step mach a s (record s { main = ended 1; fd = a.opened })
  opens :
      {s : State}
      → s.main ≡ opening
      → is_minus_one a.opened ≡ false
      → Step mach a s (record s { main = requesting; fd = a.opened })
  read_fails :
      {s : State}
      → s.main ≡ requesting
      → is_minus_one a.aio_read ≡ true
      → Step mach a s
          (record s { main = ended 1; aio_returns = suc s.aio_returns; closes = suc s.closes })
  reads :
      {s : State}
      → s.main ≡ requesting
      → is_minus_one a.aio_read ≡ false
      → Step mach a s (record s { main = spinning; handler = queued })
  pause : {s : State} → s.main ≡ spinning → s.fin ≡ 0 → Step mach a s s
  leave :
      {s : State}
      → s.main ≡ spinning
      → s.fin ≢ 0
      → (mach ≡ true → is_inside s.handler ≡ false)
      → Step mach a s (record s { main = ended 0 })
  print :
      {s : State}
      → s.main ≡ spinning
      → s.handler ≡ queued
      → Step mach a s (record s { handler = finishing; printed = suc s.printed })
  finish :
      {s : State}
      → s.main ≡ spinning
      → s.handler ≡ finishing
      → Step mach a s (record s { handler = returning; fin = 1 })
  collect :
      {s : State}
      → s.main ≡ spinning
      → s.handler ≡ returning
      → Step mach a s (record s { handler = closing; aio_returns = suc s.aio_returns })
  shut :
      {s : State}
      → s.main ≡ spinning
      → s.handler ≡ closing
      → Step mach a s (record s { handler = done; closes = suc s.closes })

-- The states that a run comes to.
pub data Reaches (mach : Bool) (a : Answers) : State → Type 0 where
  start : Reaches mach a initial
  next : {s t : State} → Reaches mach a s → Step mach a s t → Reaches mach a t
