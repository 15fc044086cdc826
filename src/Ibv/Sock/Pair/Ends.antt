-- ===== src/Ibv/Sock/Pair/Ends.antt =====
-- How long two sides can go on in their calls of sock_sync_data.
use codelib.Base.{ℕ, suc, ◌+◌, ◌*◌, ◌≤◌, ◌≡◌, List, arith, length}
use codelib.Ibv.Sock.Pair.{
  Side, SideStep, write, read, return, Pair, client_step, server_step, PairReaches, start, next,
}
use codelib.Ibv.Sock.Pair.Sizes.{total, total_mono}
use codelib.Ibv.Sock.Pair.Barrier.{entered, Fits, Counted, PairReaches-BothCounted}

-- What every step of a side adds to.
abbrev progress : Side → ℕ
progress s = entered s + s.call + s.taken

SideStep-progress :
    {calls : ℕ} {size : ℕ → ℕ} {d : ℕ → List ℕ} {o : List ℕ} {s t : Side}
    → SideStep calls size d o s t
    → progress s + 1 ≤ progress t
SideStep-progress (write e lt) = ground arith
SideStep-progress (read n k e lt pos le room) = ground arith
SideStep-progress (return n e le) = ground arith

module _ {calls : ℕ} {size : ℕ → ℕ} {client_data server_data : ℕ → List ℕ} where
  -- The steps of a run.
  abbrev pub steps : {p : Pair} → PairReaches calls size client_data server_data p → ℕ
  steps start = 0
  steps (next run m) = suc (steps run)

  steps-progress :
      {p : Pair} (run : PairReaches calls size client_data server_data p)
      → steps run ≤ progress p.client + progress p.server
  steps-progress start = ground arith
  steps-progress (next run (client_step m)) = omega (arith, steps-progress run, SideStep-progress m)
  steps-progress (next run (server_step m)) = omega (arith, steps-progress run, SideStep-progress m)

Counted-progress :
    {calls : ℕ} {size : ℕ → ℕ} (o s : Side)
    → Counted calls size o.out s
    → length o.out ≡ total size (entered o)
    → entered o ≤ calls
    → progress s ≤ calls + calls + total size calls
Counted-progress {calls} {size} o s c wrote few =
    ground (arith, c, wrote, few, total_mono size (entered o) calls few)

module _ {calls : ℕ} {size : ℕ → ℕ} {client_data server_data : ℕ → List ℕ}
    (client_fits : Fits size client_data) (server_fits : Fits size server_data) where
  -- The calls end, with or without bytes stored past an array: no run of the two sides has more steps
  -- than four for each of the calls of one of them, and two for each of the bytes of these calls.
  pub steps-le :
      {p : Pair} (run : PairReaches calls size client_data server_data p)
      → steps run ≤ 4 * calls + 2 * total size calls
  steps-le {p} run =
      let h = PairReaches-BothCounted client_fits server_fits run in
      let c = h.client_counted in
      let s = h.server_counted in
      omega (
        arith,
        steps-progress run,
        Counted-progress p.server p.client c s.wrote s.few,
        Counted-progress p.client p.server s c.wrote c.few,
      )
