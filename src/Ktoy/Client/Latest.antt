-- ===== src/Ktoy/Client/Latest.antt =====
-- What ktoy_test prints after other users have called the device.
use codelib.Base.{
  ℕ, ◌≡◌, refl, ap, subst, ◌∙◌, true, false, not, ◌⊎◌, inl, inr, ◌&&◌, ◌==◌, if◌then◌else◌, none,
  some, List, [], ◌∷◌, arith,
}
use codelib.Base.Int.{ℤ, pos, minus_one, is_negative, is_minus_one}
use codelib.Ktoy.{Kernel, bad_pointer, ktoy_ioctl, Device, Answers, ktoy_init}
use codelib.Ktoy.Driver.{Documented, ktoy_ioctl_get}
use codelib.Ktoy.Client.{Libc, Ended, main}

ktoy_init-value :
    (a : Answers) (dev : Device)
    → (ktoy_init a dev).0 ≡ pos 0
    → (ktoy_init a dev).1.ktoy_val ≡ 0xdeadbeef
unfolding ktoy_init
ktoy_init-value a dev ready = ground arith

-- What a client that finds the number `v` comes to, by the result of put_user.
abbrev pub Shows : {User : Type 0} → ℕ → ℤ → Ended User → Type 0
Shows v put e =
    ((e.status ≡ 0) × (e.printed ≡ some v) × (e.closed ≡ true))
    ⊎ ((is_negative put ≡ true) × (e.status ≡ 1) × (e.printed ≡ none))

-- A call of ioctl: the command, its argument and the memory of its user.
pub record Request (User : Type 0) : Type 0 where
  pub cmd : ℕ
  pub arg : ℕ
  pub user : User

module _ {User : Type 0} (k : Kernel User) where
  -- The device's number after some calls of it, oldest first.
  abbrev pub ktoy_ioctls : List (Request User) → ℕ → ℕ
  ktoy_ioctls [] v = v
  ktoy_ioctls (r ∷ rs) v = ktoy_ioctls rs (ktoy_ioctl k r.cmd r.arg v r.user).1

  -- The number of the last SET whose pointer the user may use, and `v` if there is none.
  abbrev pub latest_set : List (Request User) → ℕ → ℕ
  latest_set [] v = v
  latest_set (r ∷ rs) v =
      if (r.cmd == k.ioc_set) && not (bad_pointer k k.ioc_set r.arg)
      then latest_set rs (k.get_user r.user r.arg).1
      else latest_set rs v

  ktoy_ioctl-value :
      (r : Request User) (v : ℕ)
      → Documented k
      → (ktoy_ioctl k r.cmd r.arg v r.user).1 ≡ (
          if (r.cmd == k.ioc_set) && not (bad_pointer k k.ioc_set r.arg)
          then (k.get_user r.user r.arg).1
          else v)
  unfolding ktoy_ioctl
  ktoy_ioctl-value r v d = ground (arith, d.set_type, d.set_nr, d.get_type, d.get_nr)

  ktoy_ioctls-latest_set :
      (rs : List (Request User)) (v : ℕ) → Documented k → ktoy_ioctls rs v ≡ latest_set rs v
  ktoy_ioctls-latest_set [] v d = refl
  ktoy_ioctls-latest_set (r ∷ rs) v d =
      rw (ktoy_ioctl-value r v d) (ktoy_ioctls-latest_set rs _ d ∙ ground arith)

  -- The device can be opened while its number is `v`, and ioctl returns what the device's ioctl does,
  -- or -1 for an error; put_user writes the number that is loaded there, or fails.
  pub record Serves (v : ℕ) (libc : Libc User) : Type 0 where
    pub opens : is_minus_one libc.fd ≡ false
    pub serves :
        (cmd arg : ℕ) (u : User)
        → libc.ioctl libc.fd cmd arg u ≡ (
          if is_negative (ktoy_ioctl k cmd arg v u).0
              then minus_one
              else (ktoy_ioctl k cmd arg v u).0,
          (ktoy_ioctl k cmd arg v u).2,
        )
    pub put-results :
        (n p : ℕ) (u : User)
        → ((k.put_user n p u).0 ≡ pos 0) ⊎ (is_negative (k.put_user n p u).0 ≡ true)
    pub load-put :
        (n p : ℕ) (u : User) → (k.put_user n p u).0 ≡ pos 0 → libc.load (k.put_user n p u).1 p ≡ n

  main-Shows :
      (v : ℕ) (libc : Libc User) (p : ℕ) (u : User)
      → Documented k
      → Serves v libc
      → bad_pointer k k.ioc_get p ≡ false
      → Shows v (k.put_user v p (libc.store 0 p u)).0 (main libc k.ioc_get p u)
  unfolding main
  main-Shows v libc p u d s fine =
      rw
        (
          s.opens,
          s.serves k.ioc_get p (libc.store 0 p u),
          ktoy_ioctl_get k p v (libc.store 0 p u) d fine,
        )
        (elim (s.put-results v p (libc.store 0 p u)) [
          | inl wrote ↦ rw wrote (inl (refl, ap some (s.load-put v p _ wrote), refl))
          | inr failed ↦ rw failed (inr (refl, refl, refl))
        ])

  -- A client of a device that init has set up, which others have called, prints the number of the last
  -- SET among these calls whose pointer could be used, or 0xdeadbeef if there is none, closes the
  -- device and returns 0, where the number can be written to its variable; it prints nothing and
  -- exits with 1 where it can not. The variable is at an address that the client may use.
  pub main-latest_set :
      (a : Answers) (dev : Device) (rs : List (Request User)) (libc : Libc User) (p : ℕ) (u : User)
      → Documented k
      → (ktoy_init a dev).0 ≡ pos 0
      → Serves (ktoy_ioctls rs (ktoy_init a dev).1.ktoy_val) libc
      → bad_pointer k k.ioc_get p ≡ false
      → Shows
          (latest_set rs 0xdeadbeef)
          (k.put_user (latest_set rs 0xdeadbeef) p (libc.store 0 p u)).0
          (main libc k.ioc_get p u)
  main-latest_set a dev rs libc p u d ready s fine =
      main-Shows (latest_set rs 0xdeadbeef) libc p u d
        (subst (λ v. Serves v libc)
          (ap (ktoy_ioctls rs) (ktoy_init-value a dev ready)
            ∙ ktoy_ioctls-latest_set rs 0xdeadbeef d)
          s)
        fine
