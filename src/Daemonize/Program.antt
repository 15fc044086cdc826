-- ===== src/Daemonize/Program.antt =====
-- c/testdaemon.c, which calls daemonize, in every process that comes of it.
use Prim.Native.String.{String}
use codelib.Base.{ℕ, ◌≡◌, true, false, Option, none, some, List, [], ◌∷◌, ◌++◌, ◌⊎◌, arith}
use codelib.Daemonize.{Process, Answers, Fate, exits, returns, settle, lead, daemonize}
use codelib.Daemonize.Fates.{fails}

pub data Message : Type 0 where
  started terminated : Message

-- What a process does before it ends: what it tells syslog, in order, each time with the name that
-- openlog has set for it; its exit status; and itself then.
pub record Ended : Type 0 where
  pub told : List (Option String × Message)
  pub status : ℕ
  pub process : Process

-- What main does of a process in which daemonize has come to this. The result of daemonize is not
-- looked at; closelog is the last call.
unfoldable pub go_on : Fate → Ended
go_on (exits n p) = record { told = []; status = n; process = p }
go_on (returns n p) = record {
  told = (p.log, started) ∷ (p.log, terminated) ∷ [];
  status = 0;
  process = record p { log = none };
}

abbrev pub go_on_all : List Fate → List Ended
go_on_all [] = []
go_on_all (f ∷ fs) = go_on f ∷ go_on_all fs

-- All processes, the one that was started first.
unfoldable pub main : Answers → Process → List Ended
unfolding go_on
main a p = go_on_all (daemonize a (some ".") (some "testdaemon") p)

-- All that syslog is told.
abbrev pub log : List Ended → List (Option String × Message)
log [] = []
log (e ∷ es) = e.told ++ log es

-- The exit statuses, and that of the process that was started last.
abbrev pub statuses : List Ended → List ℕ
statuses [] = []
statuses (e ∷ es) = e.status ∷ statuses es

abbrev pub last_status : List Ended → Option ℕ
last_status [] = none
last_status (e ∷ es) =
    let rest = last_status es in elim rest [ none ↦ some e.status | some n ↦ some n ]

-- Where fork, setsid, the second fork and chdir succeed, three processes end, with 0, 1 and 0, and
-- only the last of them tells syslog of its start and its end, in this order and as "testdaemon".
-- Where one of them fails, none tells anything, and the process that was made last ends with 1.
pub main-daemonize :
    (a : Answers) (p : Process)
    → ((fails a (some ".") ≡ false)
        × (log (main a p) ≡ (some "testdaemon", started) ∷ (some "testdaemon", terminated) ∷ [])
        × (statuses (main a p) ≡ 0 ∷ 1 ∷ 0 ∷ []))
      ⊎ ((fails a (some ".") ≡ true) × (log (main a p) ≡ []) × (last_status (main a p) ≡ some 1))
unfolding main go_on daemonize settle lead
main-daemonize a p = ground arith
