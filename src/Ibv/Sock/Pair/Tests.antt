-- ===== src/Ibv/Sock/Pair/Tests.antt =====
-- The four calls of ibv-rc.c's two sides, and the theorems there.
use codelib.Base.{
  ℕ, zero, suc, ◌+◌, ◌*◌, ◌≤◌, ◌<◌, ◌≡◌, refl, ◌⊎◌, true, false, List, [], ◌∷◌, arith, replicate,
  length,
}
use codelib.Ibv.Sock.Pair.{
  Pair, PairStep, client_step, server_step, PairReaches, start, next, write, read, return,
}
use codelib.Ibv.Sock.Pair.Sizes.{total}
use codelib.Ibv.Sock.Pair.Barrier.{entered, Fits, PairReaches-entered}
use codelib.Ibv.Sock.Pair.Exact.{latest}
use codelib.Ibv.Sock.Pair.Delivers.{PairReaches-latest}
use codelib.Ibv.Sock.Pair.Progress.{PairReaches-PairStep}
use codelib.Ibv.Sock.Pair.Overrun.{PairReaches-overrun, overrun_reached}
use codelib.Ibv.Sock.Pair.Ends.{steps, steps-le}

-- The connection data, then "Q", "R" and "W".
abbrev sizes : ℕ → ℕ
sizes zero = 34
sizes (suc i) = 1

abbrev sevens : ℕ → List ℕ
sevens i = replicate (sizes i) 7

abbrev nines : ℕ → List ℕ
nines i = replicate (sizes i) 9

length-replicate : (i v : ℕ) → length (replicate (sizes i) v) ≡ sizes i
length-replicate zero v = refl
length-replicate (suc i) v = refl

sevens-Fits : Fits sizes sevens
sevens-Fits = record { fits = λ i. length-replicate i 7 }

nines-Fits : Fits sizes nines
nines-Fits = record { fits = λ i. length-replicate i 9 }

some_bytes : (i : ℕ) → 0 < sizes i
some_bytes zero = omega arith
some_bytes (suc i) = omega arith

-- The client has the server's connection data, in two pieces, and the server has read nothing.
exchanged :
    (p : Pair) × PairReaches 4 sizes sevens nines p
    × (p.client.returned ≡ nines 0 ∷ [])
    × (p.client.overrun ≡ false)
    × (p.server.overrun ≡ false)
exchanged = (
  _,
  next
      (next
        (next
          (next (next start (client_step (write refl (omega arith))))
            (server_step (write refl (omega arith))))
          (client_step (read 0 30 refl (omega arith) (omega arith) (omega arith) (omega arith))))
        (client_step (read 30 4 refl (omega arith) (omega arith) (omega arith) (omega arith))))
      (client_step (return 34 refl (omega arith))),
  refl,
  refl,
  refl,
)

-- The server has taken a byte of "Q" with the connection data.
overrun : (p : Pair) × PairReaches 4 sizes sevens nines p × (p.server.overrun ≡ true)
overrun = overrun_reached sevens-Fits nines-Fits (omega arith) (omega arith) (omega arith)

PairReaches-entered_example :
    (exchanged.0.client.call ≤ entered exchanged.0.server)
    × (exchanged.0.server.call ≤ entered exchanged.0.client)
PairReaches-entered_example = PairReaches-entered sevens-Fits nines-Fits some_bytes exchanged.1

PairReaches-latest_example :
    (exchanged.0.client.returned ≡ latest nines exchanged.0.client.call)
    × (exchanged.0.server.returned ≡ latest sevens exchanged.0.server.call)
PairReaches-latest_example =
    PairReaches-latest sevens-Fits nines-Fits some_bytes exchanged.1 exchanged.3 exchanged.4

PairReaches-PairStep_example :
    ((exchanged.0.client.call ≡ 4) × (exchanged.0.server.call ≡ 4))
    ⊎ ((q : Pair) × PairStep 4 sizes sevens nines exchanged.0 q)
PairReaches-PairStep_example =
    PairReaches-PairStep sevens-Fits nines-Fits some_bytes exchanged.0 exchanged.1 exchanged.3
      exchanged.4

PairReaches-overrun_example : overrun.0.server.call < 4
PairReaches-overrun_example = PairReaches-overrun sevens-Fits nines-Fits overrun.1 overrun.2

steps-le_example : steps exchanged.1 ≤ 4 * 4 + 2 * total sizes 4
steps-le_example = steps-le sevens-Fits nines-Fits exchanged.1
