-- ===== src/Ibv/Main/Together.antt =====
-- The four calls of sock_sync_data that a side of c/ibtest/ibv-rc.c makes, two in connect_qp and two in
-- main, and the two sides in these.
use codelib.Base.{
  ℕ, zero, suc, ◌<◌, ◌≡◌, refl, ap, ◌∙◌, ◌⊎◌, inl, inr, false, List, [], ◌∷◌, arith, length,
}
use codelib.Ibv.World.{ConData, Env}
use codelib.Ibv.Connect.{store_con_data, load_con_data, to_network, from_network, con_data_size}
use codelib.Ibv.Connect.Data.{
  IsConData, SameNetwork, from_network-to_network, length-store_con_data,
}
use codelib.Ibv.Sock.Pair.{Pair, PairReaches}
use codelib.Ibv.Sock.Pair.Barrier.{Fits}
use codelib.Ibv.Sock.Pair.Exact.{latest}
use codelib.Ibv.Sock.Pair.Delivers.{PairReaches-latest}

-- The xfer_size of each call.
unfoldable pub sync_size : ℕ → ℕ
sync_size zero = con_data_size
sync_size (suc i) = 1

-- The local_data of each call, of a side with this connection data.
unfoldable pub sync_data : Env → ConData → ℕ → List ℕ
sync_data e d zero = store_con_data (to_network e d)
sync_data e d (suc zero) = b'Q' ∷ []
sync_data e d (suc (suc zero)) = b'R' ∷ []
sync_data e d (suc (suc (suc i))) = b'W' ∷ []

pub sync_data-Fits : (e : Env) (d : ConData) → IsConData d → Fits sync_size (sync_data e d)
unfolding sync_size sync_data
sync_data-Fits e d h = record { fits = fits }
  where
    fits : (i : ℕ) → length (sync_data e d i) ≡ sync_size i
    fits zero = length-store_con_data (to_network e d) h.gid_length
    fits (suc zero) = refl
    fits (suc (suc zero)) = refl
    fits (suc (suc (suc i))) = refl

pub sync_size_positive : (i : ℕ) → 0 < sync_size i
unfolding sync_size
sync_size_positive zero = omega arith
sync_size_positive (suc i) = omega arith

-- What the first of some calls received, where the newest comes first.
abbrev pub first_received : List (List ℕ) → List ℕ
first_received [] = []
first_received (x ∷ xs) = let rest = first_received xs in elim xs [ [] ↦ x | y ∷ ys ↦ rest ]

first_received-latest : (d : ℕ → List ℕ) (k : ℕ) → first_received (latest d (suc k)) ≡ d 0
unfolding latest
first_received-latest d zero = refl
first_received-latest d (suc k) = first_received-latest d k

-- What a side holds once it has returned from its first call.
first_call :
    (mine theirs : Env) (d : ConData) (k : ℕ) (returned : List (List ℕ))
    → SameNetwork theirs mine
    → IsConData d
    → returned ≡ latest (sync_data theirs d) k
    → (k ≡ 0) ⊎ (from_network mine (load_con_data (first_received returned)) ≡ d)
unfolding sync_data
first_call mine theirs d zero returned same h e = inl refl
first_call mine theirs d (suc k) returned same h e = inr (
    ap (λ l. from_network mine (load_con_data (first_received l))) e
    ∙ ap (λ bs. from_network mine (load_con_data bs)) (first_received-latest (sync_data theirs d) k)
    ∙ from_network-to_network theirs mine d same h)

-- Where each of two hosts reads what the other sends, each side either has not returned from its first
-- call or holds the connection data that the other meant, however far the two have gone, as long as
-- neither side has stored past an array.
pub from_network-sync_data :
    (e f : Env) (c d : ConData)
    → SameNetwork e f
    → SameNetwork f e
    → IsConData c
    → IsConData d
    → {p : Pair} → PairReaches 4 sync_size (sync_data e c) (sync_data f d) p
    → p.client.overrun ≡ false
    → p.server.overrun ≡ false
    → ((p.client.call ≡ 0)
        ⊎ (from_network e (load_con_data (first_received p.client.returned)) ≡ d))
      × ((p.server.call ≡ 0)
          ⊎ (from_network f (load_con_data (first_received p.server.returned)) ≡ c))
from_network-sync_data e f c d ef fe hc hd {p} run clean clean' =
    let (got, got') =
      PairReaches-latest (sync_data-Fits e c hc) (sync_data-Fits f d hd) sync_size_positive run
        clean clean' in
    (
      first_call e f d p.client.call p.client.returned fe hd got,
      first_call f e c p.server.call p.server.returned ef hc got',
    )
