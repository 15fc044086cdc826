-- ===== src/Ktoy/Driver.antt =====
-- What the device of kmod/ktoy keeps, and what the module registers and takes back.
use codelib.Base.{ℕ, ◌≤◌, ◌<◌, ◌≡◌, ◌≢◌, ◌∙◌, sym, ap, true, false, ◌⊎◌, ◌↔◌, arith}
use codelib.Base.Int.{pos, is_zero}
use codelib.Ktoy.{
  Kernel, ktoy_ioc_magic, ktoy_ioc_maxnr, bad_pointer, ktoy_ioctl, Device, Answers, ktoy_init,
  ktoy_exit,
}

-- The two commands are the module's, they are two, and what put_user has written get_user reads.
pub record Documented {User : Type 0} (k : Kernel User) : Type 0 where
  pub set_type : k.ioc_type k.ioc_set ≡ ktoy_ioc_magic
  pub get_type : k.ioc_type k.ioc_get ≡ ktoy_ioc_magic
  pub set_nr : k.ioc_nr k.ioc_set ≡ 1
  pub get_nr : k.ioc_nr k.ioc_get ≡ 2
  pub put-get :
      (v a : ℕ) (u : User)
      → (k.put_user v a u).0 ≡ pos 0
      → k.get_user (k.put_user v a u).1 a ≡ (pos 0, v)

-- _IOW makes a command that writes, and _IOR one that reads.
pub record Directed {User : Type 0} (k : Kernel User) : Type 0 where
  pub set_writes : k.ioc_writes k.ioc_set ≡ true
  pub get_reads : k.ioc_reads k.ioc_get ≡ true

-- A command that ktoy_ioctl does not take for another driver's.
abbrev pub IsOwn : {User : Type 0} → Kernel User → ℕ → Type 0
IsOwn k cmd = (k.ioc_type cmd ≡ ktoy_ioc_magic) × (k.ioc_nr cmd ≤ ktoy_ioc_maxnr)

module _ {User : Type 0} (k : Kernel User) where
  ktoy_ioctl_set :
      (a v : ℕ) (u : User)
      → Documented k
      → bad_pointer k k.ioc_set a ≡ false
      → ktoy_ioctl k k.ioc_set a v u ≡ ((k.get_user u a).0, (k.get_user u a).1, u)
  unfolding ktoy_ioctl
  ktoy_ioctl_set a v u d fine = rw (d.set_type, d.set_nr, fine) (ground arith)

  pub ktoy_ioctl_get :
      (b v : ℕ) (u : User)
      → Documented k
      → bad_pointer k k.ioc_get b ≡ false
      → ktoy_ioctl k k.ioc_get b v u ≡ ((k.put_user v b u).0, v, (k.put_user v b u).1)
  unfolding ktoy_ioctl
  ktoy_ioctl_get b v u d fine = rw (d.get_type, d.get_nr, fine) (ground (arith, d.set_nr, d.get_nr))

  -- After a SET of the number at one address, whatever it returned, a GET to another that returns 0
  -- leaves there the number that get_user made of the first, and the module keeps it. Both pointers
  -- are ones that the user may use.
  pub ktoy_ioctl_set_get :
      (a b v : ℕ) (u : User)
      → Documented k
      → bad_pointer k k.ioc_set a ≡ false
      → bad_pointer k k.ioc_get b ≡ false
      → (ktoy_ioctl k k.ioc_get b (ktoy_ioctl k k.ioc_set a v u).1 u).0 ≡ pos 0
      → (k.get_user (ktoy_ioctl k k.ioc_get b (ktoy_ioctl k k.ioc_set a v u).1 u).2 b
          ≡ (pos 0, (k.get_user u a).1))
        × ((ktoy_ioctl k k.ioc_get b (ktoy_ioctl k k.ioc_set a v u).1 u).1 ≡ (k.get_user u a).1)
  ktoy_ioctl_set_get a b v u d ok1 ok2 fine = (
    ap (λ r. k.get_user r.2 b) got ∙ d.put-get _ b u (sym (ap (λ r. r.0) got) ∙ fine),
    ap (λ r. r.1) got,
  )
    where
      got : ktoy_ioctl k k.ioc_get b (ktoy_ioctl k k.ioc_set a v u).1 u ≡ (
        (k.put_user (k.get_user u a).1 b u).0,
        (k.get_user u a).1,
        (k.put_user (k.get_user u a).1 b u).1,
      )
      got =
          ktoy_ioctl_get b _ u d ok2
          ∙ ap (λ n. ((k.put_user n b u).0, n, (k.put_user n b u).1))
              (ap (λ r. r.1) (ktoy_ioctl_set a v u d ok1))

  -- What becomes of every command. One that is not the module's is refused with -ENOTTY; one that
  -- writes or reads a pointer that the user may not use, with -EFAULT; each leaves the number and the
  -- user's memory. SET and GET with a pointer that the user may use do what get_user and put_user do,
  -- and any other command returns 0 and changes nothing. The direction of SET is known to be writing,
  -- that of GET reading.
  pub ktoy_ioctl_lem :
      (cmd arg v : ℕ) (u : User)
      → Directed k
      → (((k.ioc_type cmd ≢ ktoy_ioc_magic) ⊎ (ktoy_ioc_maxnr < k.ioc_nr cmd))
          × (ktoy_ioctl k cmd arg v u ≡ (k.enotty, v, u)))
        ⊎ (IsOwn k cmd
            × (k.access_ok arg (k.ioc_size cmd) ≡ false)
            × ((k.ioc_writes cmd ≡ true) ⊎ (k.ioc_reads cmd ≡ true))
            × (ktoy_ioctl k cmd arg v u ≡ (k.efault, v, u)))
        ⊎ (IsOwn k cmd
            × (k.access_ok arg (k.ioc_size cmd) ≡ true)
            × (cmd ≡ k.ioc_set)
            × (ktoy_ioctl k cmd arg v u ≡ ((k.get_user u arg).0, (k.get_user u arg).1, u)))
        ⊎ (IsOwn k cmd
            × (k.access_ok arg (k.ioc_size cmd) ≡ true)
            × (cmd ≢ k.ioc_set)
            × (cmd ≡ k.ioc_get)
            × (ktoy_ioctl k cmd arg v u ≡ ((k.put_user v arg u).0, v, (k.put_user v arg u).1)))
        ⊎ (IsOwn k cmd
            × (cmd ≢ k.ioc_set)
            × (cmd ≢ k.ioc_get)
            × ((k.access_ok arg (k.ioc_size cmd) ≡ true)
                ⊎ ((k.ioc_writes cmd ≡ false) × (k.ioc_reads cmd ≡ false)))
            × (ktoy_ioctl k cmd arg v u ≡ (pos 0, v, u)))
  unfolding ktoy_ioctl
  ktoy_ioctl_lem cmd arg v u d = ground (arith, d.set_writes, d.get_reads)

-- Nothing is registered.
abbrev pub IsClear : Device → Type 0
IsClear d = (d.region ≡ false) × (d.cdev ≡ false) × (d.cl ≡ false) × (d.device ≡ false)

-- From nothing registered: after an init that returned 0, exit takes everything back, and what it takes
-- back was there exactly if cdev_add had succeeded; an init that returned an error has left nothing
-- registered exactly if alloc_chrdev_region failed.
pub ktoy_exit-ktoy_init :
    (a : Answers) (d : Device)
    → IsClear d
    → d.misuse ≡ false
    → (((ktoy_init a d).0 ≡ pos 0)
        × IsClear (ktoy_exit (ktoy_init a d).1)
        × (((ktoy_exit (ktoy_init a d).1).misuse ≡ false) ↔ (is_zero a.cdev_add ≡ true)))
      ⊎ ((is_zero (ktoy_init a d).0 ≡ false)
          × (IsClear (ktoy_init a d).1 ↔ (is_zero a.alloc_chrdev_region ≡ false)))
unfolding ktoy_init ktoy_exit
ktoy_exit-ktoy_init a d (e1, e2, e3, e4) m = ground (arith, e1, e2, e3, e4)
