-- ===== src/Ibv/Tests/Both.antt =====
-- Runs of the two sides of ibv-rc.c together.
use mathlib.Core.List.{flatten}
use codelib.Base.{
  ℕ, ◌≡◌, ◌⊎◌, refl, true, false, List, [], ◌∷◌, arith, ◌==◌, if◌then◌else◌, replicate,
}
use codelib.Base.Int.{pos}
use codelib.Ibv.Samples.{libraries, connected}
use codelib.Ibv.World.{wrote, Env, ConData}
use codelib.Ibv.Owned.{Post}
use codelib.Ibv.Sock.{sock_sync_data}
use codelib.Ibv.Connect.{load_con_data, from_network, store_con_data}
use codelib.Ibv.Connect.Data.{IsConData}
use codelib.Ibv.Sock.Pair.Calls.{SideRun, after_call, sock_sync_data-SideRun}
use codelib.Ibv.Sock.Pair.{
  initial_side, Pair, PairReaches, start, next, client_step, server_step, write, read, return,
}
use codelib.Ibv.Sock.Pair.Returns.{sock_sync_data-PairReaches}
use codelib.Ibv.Main.Together.{
  sync_size_positive, sync_data-Fits, sync_size, sync_data, first_received, from_network-sync_data,
}
use codelib.Ibv.Tests.Peer.{in_pieces, pieces, peer, in_pieces-SameNetwork, peer-IsConData}

-- The client of a run in which each side has the other's data.
abbrev own : ConData
own = record { addr = 4096; rkey = 5; qp_num = 6; lid = 1; gid = replicate 16 0 }

own-IsConData : IsConData own
own-IsConData = record {
  addr_range = omega arith;
  rkey_range = omega arith;
  qp_num_range = omega arith;
  lid_range = omega arith;
  gid_length = refl;
}

both_exchanged :
    (p : Pair) × PairReaches 4 sync_size (sync_data in_pieces own) (sync_data in_pieces peer) p
    × (p.client.overrun ≡ false)
    × (p.server.overrun ≡ false)
    × (p.client.call ≡ 1)
    × (p.server.call ≡ 1)
unfolding sync_size sync_data store_con_data
both_exchanged = (
  _,
  next
      (next
        (next
          (next
            (next (next start (client_step (write refl (omega arith))))
              (server_step (write refl (omega arith))))
            (client_step (read 0 34 refl (omega arith) (omega arith) (omega arith) (omega arith))))
          (server_step (read 0 34 refl (omega arith) (omega arith) (omega arith) (omega arith))))
        (client_step (return 34 refl (omega arith))))
      (server_step (return 34 refl (omega arith))),
  refl,
  refl,
  refl,
  refl,
)

from_network-sync_data_example :
    ((both_exchanged.0.client.call ≡ 0)
      ⊎ (from_network in_pieces (load_con_data (first_received both_exchanged.0.client.returned))
          ≡ peer))
    × ((both_exchanged.0.server.call ≡ 0)
        ⊎ (from_network in_pieces (load_con_data (first_received both_exchanged.0.server.returned))
            ≡ own))
unfolding both_exchanged
from_network-sync_data_example =
    from_network-sync_data in_pieces in_pieces own peer in_pieces-SameNetwork in_pieces-SameNetwork
      own-IsConData peer-IsConData both_exchanged.1 both_exchanged.2 both_exchanged.3

-- The second read brings a byte of the next call too.
abbrev in_large_pieces : Env
in_large_pieces = record (libraries 0) {
  read = λ t. if t == 1 then (pos 20, replicate 20 7) else (pos 15, replicate 15 7);
}

abbrev large_pieces : List (List ℕ)
large_pieces = replicate 20 7 ∷ replicate 15 7 ∷ []

sock_sync_data-SideRun_example :
    Post
      (λ (rc, filled) v.
        (rc ≡ pos 0)
        × (v.log ≡ wrote (sync_data in_pieces own 0) ∷ [])
        × ((m : ℕ) × SideRun 4 sync_size (sync_data in_pieces own) (replicate 40 7) initial_side (
              after_call 4 sync_size
                (sync_data in_pieces own)
                (replicate 40 7)
                (record initial_side { out = sync_data in_pieces own 0 })
                filled
                m
                v.overrun)))
      (λ _. ⊥)
      (sock_sync_data 3 (pos 3) 34 (sync_data in_pieces own 0) (connected in_large_pieces))
unfolding sync_size sync_data store_con_data flatten
sock_sync_data-SideRun_example =
    sock_sync_data-SideRun 4 sync_size (sync_data in_pieces own) (replicate 40 7) large_pieces 3
      (pos 3) (connected in_large_pieces) initial_side refl refl (refl, (refl, tt))
      (
        omega arith,
        omega arith,
        omega arith,
        refl,
        (omega arith, omega arith, omega arith, refl, tt),
      )
      (omega arith) (omega arith) refl (omega arith) refl refl

-- The server has written, and the client has not called yet.
server_first :
    (p : Pair) × PairReaches 4 sync_size (sync_data in_pieces own) (sync_data in_pieces peer) p
    × (p.client ≡ initial_side)
unfolding sync_size sync_data store_con_data
server_first = (_, next start (server_step (write refl (omega arith))), refl)

sock_sync_data-PairReaches_example :
    Post
      (λ (rc, filled) v.
        (rc ≡ pos 0)
        × ((m : ℕ) × PairReaches 4 sync_size
              (sync_data in_pieces own)
              (sync_data in_pieces peer)
              (record server_first.0 {
                client =
                    after_call 4 sync_size
                      (sync_data in_pieces own)
                      server_first.0.server.out
                      (record initial_side { out = sync_data in_pieces own 0 })
                      filled
                      m
                      v.overrun;
              }))
        × ((filled ≡ sync_data in_pieces peer 0) ⊎ (v.overrun ≡ true)))
      (λ _. ⊥)
      (sock_sync_data 3 (pos 3) 34 (sync_data in_pieces own 0) (connected in_pieces))
unfolding sync_size sync_data store_con_data flatten server_first
sock_sync_data-PairReaches_example =
    sock_sync_data-PairReaches (sync_data-Fits in_pieces own own-IsConData)
      (sync_data-Fits in_pieces peer peer-IsConData) sync_size_positive server_first.0 pieces 3
      (pos 3) (connected in_pieces) server_first.1 refl refl (refl, (refl, tt))
      (
        omega arith,
        omega arith,
        omega arith,
        refl,
        (omega arith, omega arith, omega arith, refl, tt),
      )
      (omega arith) (omega arith) refl (omega arith) refl
