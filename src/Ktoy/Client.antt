-- ===== src/Ktoy/Client.antt =====
-- kmod/ktoy/ktoy_test.c, a client of the device.
pub mod Latest
use codelib.Base.{ℕ, Bool, true, false, Option, none, some, if◌then◌else◌}
use codelib.Base.Int.{ℤ, is_minus_one}

-- What the C library gives, over the memory of the process.
pub record Libc (User : Type 0) : Type 0 where
  -- the result of `open("/dev/ktoy", O_RDWR)`
  pub fd : ℤ
  -- of a descriptor, a command and an address: the result and the memory then
  pub ioctl : ℤ → ℕ → ℕ → User → ℤ × User
  -- `*p`, and `*p = v` of an address and a value
  pub load : User → ℕ → ℕ
  pub store : ℕ → ℕ → User → User

-- What a run leaves: its exit status, the number printed, whether it has closed what it opened, and
-- its memory.
pub record Ended (User : Type 0) : Type 0 where
  pub status : ℕ
  pub printed : Option ℕ
  pub closed : Bool
  pub user : User

-- Of the value of KTOY_IOC_GET and the address of its variable ktoy_val.
unfoldable pub main : {User : Type 0} → Libc User → ℕ → ℕ → User → Ended User
main libc ioc_get ktoy_val u0 =
    let u = libc.store 0 ktoy_val u0 in
    if is_minus_one libc.fd
    then record { status = 1; printed = none; closed = false; user = u }
    else let r = libc.ioctl libc.fd ioc_get ktoy_val u in
      if is_minus_one r.0
      then record { status = 1; printed = none; closed = false; user = r.1 }
      else record { status = 0; printed = some (libc.load r.1 ktoy_val); closed = true; user = r.1 }
