-- ===== src/Ktoy/Tests.antt =====
-- The theorems on ktoy and its client with a kernel whose users' memory is a function.
use codelib.Base.{
  ℕ, ◌+◌, some, List, [], ◌∷◌, inl, ◌/◌, ◌%◌, ◌<◌, ◌≡◌, ◌≢◌, refl, ◌↔◌, ◌⊎◌, true, false, ◌==◌,
  if◌then◌else◌, arith,
}
use codelib.Base.Int.{pos, negsuc, minus_one, is_negative, is_zero}
use codelib.Ktoy.Client.{Libc, main}
use codelib.Ktoy.Client.Latest.{Request, latest_set, Serves, Shows, main-latest_set}
use codelib.Ktoy.{
  Kernel, ktoy_ioc_magic, ktoy_ioc_maxnr, ktoy_ioctl, Device, Answers, ktoy_init, ktoy_exit,
}
use codelib.Ktoy.Driver.{
  Documented, Directed, IsOwn, ktoy_ioctl_set_get, ktoy_ioctl_lem, IsClear, ktoy_exit-ktoy_init,
}

abbrev kernel : Kernel (ℕ → ℕ)
kernel = record {
  ioc_type = λ c. c / 256;
  ioc_nr = λ c. c % 256;
  ioc_size = λ c. 4;
  ioc_writes = λ c. c == 0xCA01;
  ioc_reads = λ c. c == 0xCA02;
  ioc_set = 0xCA01;
  ioc_get = 0xCA02;
  access_ok = λ a n. true;
  get_user = λ u a. (pos 0, u a);
  put_user = λ v a u. (pos 0, λ q. if q == a then v else u q);
  enotty = negsuc 24;
  efault = negsuc 13;
}

kernel-Documented : Documented kernel
kernel-Documented = record {
  set_type = refl;
  get_type = refl;
  set_nr = refl;
  get_nr = refl;
  put-get = λ v a u h. ground arith;
}

abbrev memory : ℕ → ℕ
memory q = q + 5

copied :
    (kernel.get_user (ktoy_ioctl kernel 0xCA02 8 (ktoy_ioctl kernel 0xCA01 4 0 memory).1 memory).2 8
      ≡ (pos 0, 9))
    × ((ktoy_ioctl kernel 0xCA02 8 (ktoy_ioctl kernel 0xCA01 4 0 memory).1 memory).1 ≡ 9)
unfolding ktoy_ioctl
copied = ktoy_ioctl_set_get kernel 4 8 0 memory kernel-Documented refl refl refl

kernel-Directed : Directed kernel
kernel-Directed = record { set_writes = refl; get_reads = refl }

ktoy_ioctl_lem_example :
    (((0xCA02 / 256 ≢ ktoy_ioc_magic) ⊎ (ktoy_ioc_maxnr < 0xCA02 % 256))
      × (ktoy_ioctl kernel 0xCA02 8 3 memory ≡ (negsuc 24, 3, memory)))
    ⊎ (IsOwn kernel 0xCA02
        × (kernel.access_ok 8 4 ≡ false)
        × ((kernel.ioc_writes 0xCA02 ≡ true) ⊎ (kernel.ioc_reads 0xCA02 ≡ true))
        × (ktoy_ioctl kernel 0xCA02 8 3 memory ≡ (negsuc 13, 3, memory)))
    ⊎ (IsOwn kernel 0xCA02
        × (kernel.access_ok 8 4 ≡ true)
        × (0xCA02 ≡ kernel.ioc_set)
        × (ktoy_ioctl kernel 0xCA02 8 3 memory
            ≡ ((kernel.get_user memory 8).0, (kernel.get_user memory 8).1, memory)))
    ⊎ (IsOwn kernel 0xCA02
        × (kernel.access_ok 8 4 ≡ true)
        × (0xCA02 ≢ kernel.ioc_set)
        × (0xCA02 ≡ kernel.ioc_get)
        × (ktoy_ioctl kernel 0xCA02 8 3 memory
            ≡ ((kernel.put_user 3 8 memory).0, 3, (kernel.put_user 3 8 memory).1)))
    ⊎ (IsOwn kernel 0xCA02
        × (0xCA02 ≢ kernel.ioc_set)
        × (0xCA02 ≢ kernel.ioc_get)
        × ((kernel.access_ok 8 4 ≡ true)
            ⊎ ((kernel.ioc_writes 0xCA02 ≡ false) × (kernel.ioc_reads 0xCA02 ≡ false)))
        × (ktoy_ioctl kernel 0xCA02 8 3 memory ≡ (pos 0, 3, memory)))
ktoy_ioctl_lem_example = ktoy_ioctl_lem kernel 0xCA02 8 3 memory kernel-Directed

abbrev unloaded : Device
unloaded = record {
  region = false;
  cdev = false;
  cl = false;
  device = false;
  ktoy_val = 0;
  misuse = false;
}

abbrev all_well : Answers
all_well = record {
  alloc_chrdev_region = pos 0;
  cdev_add = pos 0;
  class_create = pos 0;
  device_create = true;
}

abbrev no_class : Answers
no_class = record {
  alloc_chrdev_region = pos 0;
  cdev_add = pos 0;
  class_create = negsuc 11;
  device_create = true;
}

ktoy_exit-ktoy_init_example :
    (((ktoy_init no_class unloaded).0 ≡ pos 0)
      × IsClear (ktoy_exit (ktoy_init no_class unloaded).1)
      × (((ktoy_exit (ktoy_init no_class unloaded).1).misuse ≡ false) ↔ (true ≡ true)))
    ⊎ ((is_zero (ktoy_init no_class unloaded).0 ≡ false)
        × (IsClear (ktoy_init no_class unloaded).1 ↔ (true ≡ false)))
ktoy_exit-ktoy_init_example = ktoy_exit-ktoy_init no_class unloaded (refl, refl, refl, refl) refl

-- Of a device that keeps 9.
abbrev libc : Libc (ℕ → ℕ)
libc = record {
  fd = pos 3;
  ioctl = λ fd cmd arg u. (
    if is_negative (ktoy_ioctl kernel cmd arg 9 u).0
        then minus_one
        else (ktoy_ioctl kernel cmd arg 9 u).0,
    (ktoy_ioctl kernel cmd arg 9 u).2,
  );
  load = λ u p. u p;
  store = λ v p u q. if q == p then v else u q;
}

libc-Serves : Serves kernel 9 libc
libc-Serves = record {
  opens = refl;
  serves = λ cmd arg u. refl;
  put-results = λ n p u. inl refl;
  load-put = λ n p u h. ground arith;
}

-- A SET of what is at 4, a command of another driver and a GET.
abbrev requests : List (Request (ℕ → ℕ))
requests =
    record { cmd = 0xCA01; arg = 4; user = memory }
    ∷ record { cmd = 0x7701; arg = 6; user = memory }
    ∷ record { cmd = 0xCA02; arg = 7; user = memory }
    ∷ []

main-latest_set_example :
    Shows (latest_set kernel requests 0xdeadbeef) (pos 0) (main libc 0xCA02 8 memory)
unfolding ktoy_ioctl ktoy_init
main-latest_set_example =
    main-latest_set kernel all_well unloaded requests libc 8 memory kernel-Documented refl
      libc-Serves refl

shows_9 : (main libc 0xCA02 8 memory).printed ≡ some 9
unfolding main ktoy_ioctl
shows_9 = refl
