-- ===== src/Ktoy.antt =====
-- kmod/ktoy/ktoy.c: a character device that keeps one number.
pub mod Driver
pub mod Client
mod Tests
use codelib.Base.{ℕ, ◌%◌, ◌^◌, Bool, true, false, not, ◌||◌, ◌&&◌, ltb, ◌==◌, if◌then◌else◌}
use codelib.Base.Int.{ℤ, pos, negsuc, is_zero}

-- What the kernel's headers and functions give: the parts of a command, the commands that _IOW and
-- _IOR make, and the calls, over the memory of a user.
pub record Kernel (User : Type 0) : Type 0 where
  pub ioc_type : ℕ → ℕ
  pub ioc_nr : ℕ → ℕ
  pub ioc_size : ℕ → ℕ
  -- `_IOC_DIR(cmd) & _IOC_WRITE`, and `& _IOC_READ`
  pub ioc_writes : ℕ → Bool
  pub ioc_reads : ℕ → Bool
  -- KTOY_IOC_SET and KTOY_IOC_GET
  pub ioc_set : ℕ
  pub ioc_get : ℕ
  -- of an address and a size
  pub access_ok : ℕ → ℕ → Bool
  -- the result and the number read; the result and the memory written
  pub get_user : User → ℕ → ℤ × ℕ
  pub put_user : ℕ → ℕ → User → ℤ × User
  -- `-ENOTTY` and `-EFAULT`
  pub enotty : ℤ
  pub efault : ℤ

-- KTOY_IOC_MAGIC and KTOY_IOC_MAXNR
abbrev pub ktoy_ioc_magic : ℕ
ktoy_ioc_magic = 0xCA

abbrev pub ktoy_ioc_maxnr : ℕ
ktoy_ioc_maxnr = 2

module _ {User : Type 0} (k : Kernel User) where
  -- Whether the pointer is refused.
  abbrev pub bad_pointer : ℕ → ℕ → Bool
  bad_pointer cmd arg =
      if k.ioc_writes cmd
      then not (k.access_ok arg (k.ioc_size cmd))
      else if k.ioc_reads cmd
      then not (k.access_ok arg (k.ioc_size cmd))
      else false

  -- The result, ktoy_val and the user's memory.
  unfoldable pub ktoy_ioctl : ℕ → ℕ → ℕ → User → ℤ × ℕ × User
  ktoy_ioctl cmd arg ktoy_val user =
      if not (k.ioc_type cmd == ktoy_ioc_magic)
      then (k.enotty, ktoy_val, user)
      else if ltb ktoy_ioc_maxnr (k.ioc_nr cmd)
      then (k.enotty, ktoy_val, user)
      else if bad_pointer cmd arg
      then (k.efault, ktoy_val, user)
      else if cmd == k.ioc_set
      then ((k.get_user user arg).0, (k.get_user user arg).1, user)
      else if cmd == k.ioc_get
      then ((k.put_user ktoy_val arg user).0, ktoy_val, (k.put_user ktoy_val arg user).1)
      else (pos 0, ktoy_val, user)

-- What the module has registered with the kernel.
pub record Device : Type 0 where
  pub region : Bool
  pub cdev : Bool
  pub cl : Bool
  pub device : Bool
  pub ktoy_val : ℕ
  -- something was taken back that was not there
  pub misuse : Bool

-- What alloc_chrdev_region and cdev_add return, and the error of class_create, 0 for none.
pub record Answers : Type 0 where
  pub alloc_chrdev_region : ℤ
  pub cdev_add : ℤ
  pub class_create : ℤ
  -- whether device_create succeeds
  pub device_create : Bool

-- An error is only printed.
ktoy_setup_cdev : Answers → Device → Device
ktoy_setup_cdev a d = if is_zero a.cdev_add then record d { cdev = true } else d

-- The result and what is registered.
unfoldable pub ktoy_init : Answers → Device → ℤ × Device
unfolding ktoy_setup_cdev
ktoy_init a d =
    if not (is_zero a.alloc_chrdev_region)
    then (a.alloc_chrdev_region, d)
    else let d1 = ktoy_setup_cdev a (record d { region = true }) in
      if not (is_zero a.class_create) then (a.class_create, d1) else (
        a.alloc_chrdev_region,
        record d1 { cl = true; device = a.device_create; ktoy_val = 0xdeadbeef },
      )

-- device_destroy takes back a device that is there, and else does nothing.
unfoldable pub ktoy_exit : Device → Device
ktoy_exit d = record {
  region = false;
  cdev = false;
  cl = false;
  device = false;
  ktoy_val = d.ktoy_val;
  misuse = d.misuse || not (d.region && (d.cdev && d.cl));
}
