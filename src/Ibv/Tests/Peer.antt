-- ===== src/Ibv/Tests/Peer.antt =====
-- Runs of the calls of ibv-rc.c that wait for the other side or for the hardware.
use mathlib.Core.List.{flatten}
use codelib.Base.{
  ℕ, ◌+◌, ◌*◌, ◌≤◌, ◌<◌, ◌≡◌, ◌⊎◌, ◌↔◌, refl, true, false, List, [], ◌∷◌, arith, ◌==◌,
  if◌then◌else◌, replicate,
}
use codelib.Base.Int.{pos, minus_one}
use codelib.Ibv.Samples.{libraries, connected}
use codelib.Ibv.World.{Env, ConData}
use codelib.Ibv.Owned.{Post}
use codelib.Ibv.Sock.{sock_sync_data, poll_completion}
use codelib.Ibv.Sock.Poll.{waits, IsCompletion, poll_completion_ends}
use codelib.Ibv.Sock.Receive.{
  sock_sync_data-Delivers, sock_sync_data_waits, sock_sync_data_overruns,
}
use codelib.Ibv.Connect.{store_con_data, exchange}
use codelib.Ibv.Connect.Data.{IsConData, SameNetwork, exchange-remote_props}

-- The other side's bytes come in two pieces.
abbrev pub in_pieces : Env
in_pieces = record (libraries 0) {
  read = λ t. if t == 1 then (pos 20, replicate 20 7) else (pos 14, replicate 14 7);
}

abbrev pub pieces : List (List ℕ)
pieces = replicate 20 7 ∷ replicate 14 7 ∷ []

abbrev pub peer : ConData
peer = record {
  addr = 506381209866536711;
  rkey = 117901063;
  qp_num = 117901063;
  lid = 1799;
  gid = replicate 16 7;
}

assembled :
    Post
      (λ (rc, filled) v. (rc ≡ pos 0) × (filled ≡ flatten pieces) × (v.overrun ≡ false))
      (λ _. ⊥)
      (sock_sync_data 3 (pos 3) 34 [] (connected in_pieces))
unfolding flatten
assembled =
    sock_sync_data-Delivers pieces 3 (pos 3) 34 [] (connected in_pieces) refl refl
      (refl, (refl, tt)) (omega arith) refl

short_then_long :
    Post
      (λ (rc, filled) v. (rc ≡ pos 0) × (filled ≡ replicate 34 7) × (v.overrun ≡ true))
      (λ _. ⊥)
      (sock_sync_data 3 (pos 3) 30 [] (connected in_pieces))
short_then_long =
    sock_sync_data_overruns (replicate 20 7) (replicate 14 7) 0 (pos 3) 30 [] (connected in_pieces)
      refl refl (refl, (refl, tt)) (omega arith) (omega arith)

abbrev closed_peer : Env
closed_peer = record (libraries 0) { read = λ t. (pos 0, []) }

sock_sync_data_waits_example :
    Post (λ _ _. ⊥) (λ _. Unit) (sock_sync_data 3 (pos 3) 34 [] (connected closed_peer))
sock_sync_data_waits_example =
    sock_sync_data_waits 3 (pos 3) 34 [] (connected closed_peer) refl refl (λ t. refl) (omega arith)

pub in_pieces-SameNetwork : SameNetwork in_pieces in_pieces
in_pieces-SameNetwork = record { ll = λ x h. (h, refl); l = λ x h. (h, refl); s = λ x h. (h, refl) }

pub peer-IsConData : IsConData peer
peer-IsConData = record {
  addr_range = omega arith;
  rkey_range = omega arith;
  qp_num_range = omega arith;
  lid_range = omega arith;
  gid_length = refl;
}

exchange-remote_props_example :
    Post
      (λ ret v.
        (ret ≡ pos 0)
        × (v.res ≡ record (connected in_pieces).res { remote_props = peer })
        × (v.overrun ≡ false))
      (λ _. ⊥)
      (exchange 3 [] (connected in_pieces))
unfolding store_con_data flatten
exchange-remote_props_example =
    exchange-remote_props in_pieces peer pieces 3 [] (connected in_pieces) refl
      in_pieces-SameNetwork peer-IsConData refl (refl, (refl, tt)) refl (omega arith)

-- The first poll finds nothing; a call of the clock takes 200 milliseconds.
abbrev slow_queue : Env
slow_queue = record (libraries 0) {
  gettimeofday = λ t. (0, t * 200000);
  poll_cq = λ t. if t == 1 then (pos 0, 0) else (pos 1, 0);
}

poll_completion_ends_example :
    (k : ℕ) × (k ≤ 5)
    × ((j : ℕ) → j < k → waits slow_queue 0 (1 + 2 * j) ≡ true)
    × (waits slow_queue 0 (1 + 2 * k) ≡ false)
    × Post
        (λ ret v.
          ((ret ≡ pos 0) ↔ IsCompletion (slow_queue.poll_cq (1 + 2 * k)))
          × ((ret ≡ pos 0) ⊎ (ret ≡ minus_one)))
        (λ _. ⊥)
        (poll_completion 6 (connected slow_queue))
poll_completion_ends_example = poll_completion_ends 5 6 (connected slow_queue) refl (omega arith)
