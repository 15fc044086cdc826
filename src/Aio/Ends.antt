-- ===== src/Aio/Ends.antt =====
-- How a run of cl_aio.c ends.
use codelib.Base.{ℕ, zero, suc, ◌≡◌, refl, subst, ◌⊎◌, Bool, true, false, arith}
use codelib.Base.Int.{is_minus_one}
use codelib.Aio.{
  Answers, Main, opening, requesting, spinning, ended, Handler, idle, queued, finishing, returning,
  closing, done, State, Step, open_fails, opens, read_fails, reads, pause, leave, print, finish,
  collect, shut, Reaches, start, next,
}

-- fin, and how often printf, aio_return and close were called.
pub record Calls (fin printed aio_returns closes : ℕ) (s : State) : Type 0 where
  pub fin_is : s.fin ≡ fin
  pub printed_is : s.printed ≡ printed
  pub aio_returns_is : s.aio_returns ≡ aio_returns
  pub closes_is : s.closes ≡ closes

-- What the handler has done so far.
abbrev HandlerCalls : Handler → State → Type 0
HandlerCalls idle s = Calls 0 0 0 0 s
HandlerCalls queued s = Calls 0 0 0 0 s
HandlerCalls finishing s = Calls 0 1 0 0 s
HandlerCalls returning s = Calls 1 1 0 0 s
HandlerCalls closing s = Calls 1 1 1 0 s
HandlerCalls done s = Calls 1 1 1 1 s

-- What is so where main has ended with a status.
pub record Failed (a : Answers) (s : State) : Type 0 where
  pub failure :
      ((is_minus_one a.opened ≡ true) × Calls 0 0 0 0 s)
      ⊎ ((is_minus_one a.opened ≡ false) × (is_minus_one a.aio_read ≡ true) × Calls 0 0 1 1 s)

pub record Finished (mach : Bool) (a : Answers) (s : State) : Type 0 where
  pub opened : is_minus_one a.opened ≡ false
  pub read : is_minus_one a.aio_read ≡ false
  pub stage : ((mach ≡ false) × (Calls 1 1 0 0 s ⊎ Calls 1 1 1 0 s)) ⊎ Calls 1 1 1 1 s

abbrev pub AtEnd : Bool → Answers → ℕ → State → Type 0
AtEnd mach a zero s = Finished mach a s
AtEnd mach a (suc zero) s = Failed a s
AtEnd mach a (suc (suc n)) s = ⊥

abbrev AtMain : Bool → Answers → Main → State → Type 0
AtMain mach a opening s = Calls 0 0 0 0 s
AtMain mach a requesting s = (is_minus_one a.opened ≡ false) × Calls 0 0 0 0 s
AtMain mach a spinning s =
    (is_minus_one a.opened ≡ false) × (is_minus_one a.aio_read ≡ false) × HandlerCalls s.handler s
AtMain mach a (ended n) s = AtEnd mach a n s

record Sound (mach : Bool) (a : Answers) (s : State) : Type 0 where
  pub sound : AtMain mach a s.main s

module _ {mach : Bool} {a : Answers} where
  Step-Sound : {s t : State} → Step mach a s t → Sound mach a s → Sound mach a t
  Step-Sound (open_fails e f) i = ground arith
  Step-Sound (opens e f) i = ground arith
  Step-Sound (read_fails e f) i = ground arith
  Step-Sound (reads e f) i = ground arith
  Step-Sound (pause e f) i = i
  Step-Sound (leave e f g) i = ground arith
  Step-Sound (print e f) i = ground arith
  Step-Sound (finish e f) i = ground arith
  Step-Sound (collect e f) i = ground arith
  Step-Sound (shut e f) i = ground arith

  Reaches-Sound : {s : State} → Reaches mach a s → Sound mach a s
  Reaches-Sound start = ground arith
  Reaches-Sound (next run step) = Step-Sound step (Reaches-Sound run)

  end_lem : {s : State} {n : ℕ} → s.main ≡ ended n → Sound mach a s → AtEnd mach a n s
  end_lem {s} {n} e i = subst (λ m. AtMain mach a m s) e i.sound

  -- However main and the handler take turns, main ends with status 1 where open failed, with no call
  -- made since, or where aio_read failed, with one aio_return and one close; and with status 0 where
  -- both succeeded and the handler has told so once and set fin. Then aio_return and close were each
  -- called once, or, where the handler has a thread of its own, possibly only aio_return or neither.
  pub Reaches-AtEnd : {s : State} (n : ℕ) → Reaches mach a s → s.main ≡ ended n → AtEnd mach a n s
  Reaches-AtEnd n run e = end_lem e (Reaches-Sound run)

-- Where the handler has a thread of its own and both calls succeed, main can end with the descriptor
-- open and aio_return not called.
pub Reaches-ended :
    (a : Answers)
    → is_minus_one a.opened ≡ false
    → is_minus_one a.aio_read ≡ false
    → (s : State) × Reaches false a s × (s.main ≡ ended 0) × (s.fd ≡ a.opened) × Calls 1 1 0 0 s
Reaches-ended a o r = (
  _,
  next
      (next (next (next (next start (opens refl o)) (reads refl r)) (print refl refl))
        (finish refl refl))
      (leave refl (λ h. absurd (omega (arith, h))) (λ h. absurd (cc (h)))),
  refl,
  refl,
  record { fin_is = refl; printed_is = refl; aio_returns_is = refl; closes_is = refl },
)
