-- ===== src/Daemonize.antt =====
-- c/cl_daemonize.h: daemonize, with every process that its forks make.
pub mod Fates
pub mod Program
mod Tests
use Prim.Native.String.{String}
use codelib.Base.{
  ℕ, zero, suc, Bool, true, false, Option, none, some, List, [], ◌∷◌, ◌==◌, if◌then◌else◌,
}
use codelib.Base.Int.{ℤ, pos, negsuc, is_negative}

-- The signals that daemonize ignores.
pub data Signal : Type 0 where
  sigchld sighup : Signal

-- What daemonize reads or changes of a process.
pub record Process : Type 0 where
  pub pid : ℕ
  pub session : ℕ
  pub leads : Bool
  pub ignored : List Signal
  pub umask : ℕ
  pub wd : String
  pub is_open : ℕ → Bool
  pub log : Option String

-- What the system answers: the child's pid of each fork, if there is one, setsid, chdir, and
-- sysconf(_SC_OPEN_MAX) as an int.
pub record Answers : Type 0 where
  pub fork1 : Option ℕ
  pub setsid : ℤ
  pub fork2 : Option ℕ
  pub chdir : ℤ
  pub open_max : ℤ

-- What becomes of a process: it exits with a status, or daemonize returns to it.
pub data Fate : Type 0 where
  exits : ℕ → Process → Fate
  returns : ℕ → Process → Fate

abbrev pub exit_success : ℕ
exit_success = 0

abbrev pub exit_failure : ℕ
exit_failure = 1

-- The process that fork makes.
abbrev pub child : ℕ → Process → Process
child pid p = record p { pid = pid; leads = false }

abbrev pub new_session : Process → Process
new_session p = record p { session = p.pid; leads = true }

abbrev pub close : ℕ → Process → Process
close fd p = record p { is_open = λ d. if d == fd then false else p.is_open d }

-- `for (i = sysconf(_SC_OPEN_MAX); i > 0; i--) close(i);`
unfoldable pub close_down : ℕ → Process → Process
close_down zero p = p
close_down (suc i) p = close_down i (close (suc i) p)

abbrev pub close_all : ℤ → Process → Process
close_all (pos n) p = close_down n p
close_all (negsuc n) p = p

-- Whether `wd && chdir(wd) < 0`, and where the process is otherwise.
abbrev pub chdir_fails : Answers → Option String → Bool
chdir_fails a none = false
chdir_fails a (some dir) = is_negative a.chdir

abbrev pub move_to : Option String → Process → Process
move_to none p = p
move_to (some dir) p = record p { wd = dir }

abbrev pub open_log : Option String → Process → Process
open_log none p = p
open_log (some ident) p = record p { log = some ident }

-- From umask on: the second child, with the 0 that fork gave it.
unfoldable pub settle : Answers → Option String → Option String → Process → List Fate
settle a wd ident p =
    let p1 = record p { umask = 0 } in
    if chdir_fails a wd
    then exits exit_failure p1 ∷ []
    else returns 0 (open_log ident (close_all a.open_max (move_to wd p1))) ∷ []

-- From setsid on: the first child.
unfoldable pub lead : Answers → Option String → Option String → Process → List Fate
unfolding settle
lead a wd ident p =
    if is_negative a.setsid
    then exits exit_failure p ∷ []
    else let p1 = record (new_session p) { ignored = sighup ∷ sigchld ∷ p.ignored } in
      elim a.fork2 [
        | none ↦ exits exit_failure p1 ∷ []
        | some pid ↦ exits exit_failure p1 ∷ settle a wd ident (child pid p1)
      ]

-- The fates of all processes, the caller first.
unfoldable pub daemonize : Answers → Option String → Option String → Process → List Fate
unfolding lead
daemonize a wd ident p = elim a.fork1 [
  | none ↦ exits exit_failure p ∷ []
  | some pid ↦ exits exit_success p ∷ lead a wd ident (child pid p)
]
