-- ===== src/Ibv/Main/Lifecycle.antt =====
-- What a run of main of c/ibtest/ibv-rc.c has acquired, used and given back.
use Prim.Native.String.{String}
use codelib.Base.{ℕ, ◌≤◌, ◌≡◌, refl, true, false, none, List, [], arith}
use codelib.Ibv.World.{null, World, ok, Kind, sock, dev_list, context, pd, cq, buf, mr, qp, name}
use codelib.Ibv.Owned.{Post, bind, weaken_stop, Owns, Documented}
use codelib.Ibv.Sock.Descriptors.{with_listener}
use codelib.Ibv.Resources.{no_resources, resources_init}
use codelib.Ibv.Resources.Release.{resources_destroy_lem}
use codelib.Ibv.Main.{Flag, parse_args, free_name, main_exit, main}
use codelib.Ibv.Main.Arguments.{dev_flags, Parsed, parse_args_lem}
use codelib.Ibv.Main.Session.{run_test_lem}

-- Every object is given back but the sockets and names listed, and none was misused.
pub record AllReleased (sockets names : List ℕ) (w : World) : Type 0 where
  pub qp_gone : w.live qp ≡ []
  pub mr_gone : w.live mr ≡ []
  pub buf_gone : w.live buf ≡ []
  pub cq_gone : w.live cq ≡ []
  pub pd_gone : w.live pd ≡ []
  pub context_gone : w.live context ≡ []
  pub list_gone : w.live dev_list ≡ []
  pub sock_left : w.live sock ≡ sockets
  pub name_left : w.live name ≡ names
  pub clean : w.misuse ≡ false

free_name_lem :
    {sockets names : List ℕ} {w : World}
    → Owns no_resources null sockets names w
    → Post (λ _ v. AllReleased sockets names v) (λ _. ⊥) (free_name w)
unfolding free_name
free_name_lem o = ground arith

main_exit_lem :
    {sockets names : List ℕ} {w : World} (rc : ℕ)
    → Owns w.res null sockets names w
    → Post (λ _ v. AllReleased sockets names v) (λ _. ⊥) (main_exit rc w)
unfolding main_exit
main_exit_lem rc o =
    bind (resources_destroy_lem o)
      λ r v (o1, same). bind (free_name_lem o1) λ _ u gone. record { outcome = gone }

-- A process that has just started: it holds nothing, and no device is named.
pub record IsIdle (w : World) : Type 0 where
  pub holds_nothing : (k : Kind) → w.live k ≡ []
  pub no_misuse : w.misuse ≡ false
  pub no_name : w.config.dev_name ≡ none

IsIdle-Owns : {w : World} → IsIdle w → Owns no_resources null [] [] w
IsIdle-Owns {w} i = ground (
  arith,
  i.holds_nothing qp,
  i.holds_nothing mr,
  i.holds_nothing buf,
  i.holds_nothing cq,
  i.holds_nothing pd,
  i.holds_nothing context,
  i.holds_nothing dev_list,
  i.holds_nothing sock,
  i.holds_nothing name,
)

module _ (fuel : ℕ) (fs : List Flag) (rest : List String) where
  -- Started with nothing held, at most one `-d` and a command line that `parse_args` accepts, a
  -- run of `main` that returns has given back every object that it acquired, each once and before
  -- what it depends on; only the socket that a server listens on stays open. Neither then nor where
  -- the process exits early or waits for ever has it used an object that it did not hold. It is
  -- assumed of the libraries that `socket` returns a descriptor or -1, and that `strdup` finds
  -- memory.
  pub main-AllReleased :
      {w v : World}
      → IsIdle w
      → Documented w.env
      → dev_flags fs ≤ 1
      → parse_args fs rest w ≡ ok true v
      → Post
          (λ code u. AllReleased (with_listener v.config.server_name v.env v.tick []) [] u)
          (λ u. u.misuse ≡ false)
          (main fuel fs rest w)
  unfolding main resources_init
  main-AllReleased {w} {v} i d few e = rw e (
      bind
        (run_test_lem {sockets = []} {names = []} fuel (rw p.1 d) (ground (arith, p.0))
          (ground arith) refl)
        λ rc u o. weaken_stop (main_exit_lem rc o))
    where
      p : Parsed no_resources w v
      p = (rw e at (parse_args_lem fs rest (IsIdle-Owns i) (ground arith))).outcome
