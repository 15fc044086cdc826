-- ===== src/Reorder/Program/Progress.antt =====
-- That no run of c/reorder/reorder.c is stuck.
use codelib.Base.{ℕ, ◌^◌, ◌<◌, ◌≡◌, refl, Bool, Option, none, some, ◌⊎◌, inl, inr, arith}
use codelib.Reorder.Program.{
  Worker, arriving, spinning, storing, fencing, loading, leaving, ending, Main, reset_x, reset_y,
  join, spin, leave, finish, check, Program, initial, Move, arrive1, go1, store1, fence1, load1,
  leave1, again1, flush1, arrive2, go2, store2, fence2, load2, leave2, again2, flush2, set_x, set_y,
  flush_x, flush_y, arrive, go, end, all_ended, count, Runs, additions,
}
use codelib.Reorder.Program.Barrier.{Gather, Work, Runs-phase}

module _ (fence : Bool) (s : Program) where
  abbrev Steps : Type 0
  Steps = (t : Program) × Move fence s t

  gather1_steps : Gather fence s → (w : Worker) → s.w1 ≡ w → Steps ⊎ (s.w1 ≡ spinning)
  gather1_steps g arriving e = inl (_, arrive1 e g.empty1)
  gather1_steps g spinning e = inr e
  gather1_steps g ending e = inl (_, again1 e g.at_end)
  gather1_steps g storing e = ground (arith, g)
  gather1_steps g fencing e = ground (arith, g)
  gather1_steps g loading e = ground (arith, g)
  gather1_steps g leaving e = ground (arith, g)

  gather2_steps : Gather fence s → (w : Worker) → s.w2 ≡ w → Steps ⊎ (s.w2 ≡ spinning)
  gather2_steps g arriving e = inl (_, arrive2 e g.empty2)
  gather2_steps g spinning e = inr e
  gather2_steps g ending e = inl (_, again2 e g.at_end)
  gather2_steps g storing e = ground (arith, g)
  gather2_steps g fencing e = ground (arith, g)
  gather2_steps g loading e = ground (arith, g)
  gather2_steps g leaving e = ground (arith, g)

  join_steps : s.m ≡ join → (b c : Option ℕ) → s.buf_x ≡ b → s.buf_y ≡ c → Steps
  join_steps e (some v) c f h = (_, flush_x v f)
  join_steps e none (some v) f h = (_, flush_y v f h)
  join_steps e none none f h = (_, arrive e f h)

  Gather-main_steps : Gather fence s → (m : Main) → s.m ≡ m → Steps ⊎ (s.m ≡ spin)
  Gather-main_steps g reset_x e = inl (_, set_x e)
  Gather-main_steps g reset_y e = inl (_, set_y e)
  Gather-main_steps g join e = inl (join_steps e s.buf_x s.buf_y refl refl)
  Gather-main_steps g spin e = inr e
  Gather-main_steps g leave e = ground (arith, g)
  Gather-main_steps g finish e = inl (_, all_ended e g.at_end)
  Gather-main_steps g check e = inl (_, count e)

  gather_steps : Gather fence s → Steps
  gather_steps g = elim (gather1_steps g s.w1 refl) [
    | inl step ↦ step
    | inr e1 ↦ elim (gather2_steps g s.w2 refl) [
      | inl step ↦ step
      | inr e2 ↦ elim (Gather-main_steps g s.m refl) [
        | inl step ↦ step
        | inr e ↦ absurd (ground (arith, g.few))
      ]
    ]
  ]

  leave1_steps : s.w1 ≡ leaving → (b : Option ℕ) → s.buf1 ≡ b → Steps
  leave1_steps e none f = (_, leave1 e f)
  leave1_steps e (some v) f = (_, flush1 v f)

  fence1_steps : s.w1 ≡ fencing → (b : Option ℕ) → s.buf1 ≡ b → Steps
  fence1_steps e none f = (_, fence1 e λ h. f)
  fence1_steps e (some v) f = (_, flush1 v f)

  work1_steps : Work fence s → (w : Worker) → s.w1 ≡ w → Steps ⊎ (s.w1 ≡ ending)
  work1_steps k arriving e = ground (arith, k)
  work1_steps k spinning e = inl (_, go1 e k.at_start)
  work1_steps k storing e = inl (_, store1 e)
  work1_steps k fencing e = inl (fence1_steps e s.buf1 refl)
  work1_steps k loading e = inl (_, load1 e)
  work1_steps k leaving e = inl (leave1_steps e s.buf1 refl)
  work1_steps k ending e = inr e

  leave2_steps : s.w2 ≡ leaving → (b : Option ℕ) → s.buf2 ≡ b → Steps
  leave2_steps e none f = (_, leave2 e f)
  leave2_steps e (some v) f = (_, flush2 v f)

  fence2_steps : s.w2 ≡ fencing → (b : Option ℕ) → s.buf2 ≡ b → Steps
  fence2_steps e none f = (_, fence2 e λ h. f)
  fence2_steps e (some v) f = (_, flush2 v f)

  work2_steps : Work fence s → (w : Worker) → s.w2 ≡ w → Steps ⊎ (s.w2 ≡ ending)
  work2_steps k arriving e = ground (arith, k)
  work2_steps k spinning e = inl (_, go2 e k.at_start)
  work2_steps k storing e = inl (_, store2 e)
  work2_steps k fencing e = inl (fence2_steps e s.buf2 refl)
  work2_steps k loading e = inl (_, load2 e)
  work2_steps k leaving e = inl (leave2_steps e s.buf2 refl)
  work2_steps k ending e = inr e

  Work-main_steps : Work fence s → (m : Main) → s.m ≡ m → Steps ⊎ (s.m ≡ finish)
  Work-main_steps k reset_x e = ground (arith, k)
  Work-main_steps k reset_y e = ground (arith, k)
  Work-main_steps k join e = ground (arith, k)
  Work-main_steps k spin e = inl (_, go e k.at_start)
  Work-main_steps k leave e = inl (_, end e k.empty_x k.empty_y)
  Work-main_steps k finish e = inr e
  Work-main_steps k check e = ground (arith, k)

  work_steps : Work fence s → Steps
  work_steps k = elim (work1_steps k s.w1 refl) [
    | inl step ↦ step
    | inr e1 ↦ elim (work2_steps k s.w2 refl) [
      | inl step ↦ step
      | inr e2 ↦ elim (Work-main_steps k s.m refl) [
        | inl step ↦ step
        | inr e ↦ absurd (ground (arith, k.few))
      ]
    ]
  ]

-- With the fence or without, and after any steps with less than 2^64 additions to the two counters
-- together, the program can take another one: the three threads never wait for each other all at
-- once.
pub Runs-moves :
    (fence : Bool) (s : Program) (run : Runs fence initial s)
    → additions run < 2 ^ 64
    → (t : Program) × Move fence s t
Runs-moves fence s run n = elim (Runs-phase run n) [
  | inl g ↦ gather_steps fence s g
  | inr k ↦ work_steps fence s k
]
