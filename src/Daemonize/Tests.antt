-- ===== src/Daemonize/Tests.antt =====
-- Runs of c/testdaemon.c.
use codelib.Base.{ℕ, ◌≡◌, true, false, none, some, [], ◌∷◌, ◌⊎◌, ◌&&◌, leb, ltb, if◌then◌else◌}
use codelib.Base.Int.{pos, negsuc}
use codelib.Daemonize.{Process, Answers, exits, returns, sigchld, sighup, daemonize}
use codelib.Daemonize.Program.{
  main, log, statuses, last_status, started, terminated, main-daemonize,
}
use codelib.Daemonize.Fates.{returned, daemonize_lem, returned-daemonize}

abbrev shell : Process
shell = record {
  pid = 10;
  session = 9;
  leads = false;
  ignored = [];
  umask = 18;
  wd = "/root";
  is_open = λ fd. ltb fd 3;
  log = none;
}

abbrev answers : Answers
answers = record {
  fork1 = some 11;
  setsid = pos 11;
  fork2 = some 12;
  chdir = pos 0;
  open_max = pos 4;
}

daemonize_lem_example :
    (m : Process) × (g : Process) × (daemonize answers (some ".") (some "testdaemon") shell
      ≡ exits 0 shell ∷ exits 1 m ∷ returns 0 g ∷ [])
    × ((m.session ≡ 11) × (m.leads ≡ true))
    × ((g.pid ≡ 12) × (g.session ≡ 11) × (g.leads ≡ false))
    × (g.ignored ≡ sighup ∷ sigchld ∷ [])
    × ((g.umask ≡ 0) × (g.wd ≡ ".") × (g.log ≡ some "testdaemon"))
    × ((fd : ℕ) → g.is_open fd ≡ (if leb 1 fd && leb fd 4 then false else ltb fd 3))
daemonize_lem_example = daemonize_lem 11 12 4 11 0 "." "testdaemon" shell

none_left : returned (daemonize (record answers { setsid = negsuc 0 }) none none shell) ≡ 0
none_left = returned-daemonize (record answers { setsid = negsuc 0 }) none none shell

main-daemonize_example :
    ((false ≡ false)
      × (log (main answers shell)
          ≡ (some "testdaemon", started) ∷ (some "testdaemon", terminated) ∷ [])
      × (statuses (main answers shell) ≡ 0 ∷ 1 ∷ 0 ∷ []))
    ⊎ ((false ≡ true)
        × (log (main answers shell) ≡ [])
        × (last_status (main answers shell) ≡ some 1))
main-daemonize_example = main-daemonize answers shell
