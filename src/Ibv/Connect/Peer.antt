-- ===== src/Ibv/Connect/Peer.antt =====
-- The exchange of the connection data in connect_qp of c/ibtest/ibv-rc.c, with a peer
-- that means some data.
use codelib.Base.{
  ◌<◌, ℕ, ◌≡◌, refl, ap, false, if◌then◌else◌, Bool-cases, inl, inr, List, ◌∷◌, arith, take, suc,
  length, replicate,
}
use codelib.Base.Int.{is_negative, is_minus_one}
use codelib.Ibv.World.{Env, ConData, Resources, World, wrote}
use codelib.Ibv.Owned.{Post, bind, IsOpen, mono, both}
use mathlib.Core.List.{flatten}
use codelib.Ibv.Sock.{less_than}
use codelib.Ibv.Sock.Receive.{Delivers, IsOpen-live}
use codelib.Ibv.Connect.Data.{IsConData, SameNetwork, exchange-remote_props}
use codelib.Ibv.Sock.Told.{Tells, sock_sync_data-Tells}
use codelib.Ibv.Connect.{
  store_con_data, load_con_data, to_network, from_network, local_con_data, con_data_size,
  query_my_gid, exchange,
}

-- The gid that this side tells: zeros where no index is configured.
abbrev pub my_gid : World → List ℕ
my_gid w = if is_negative w.config.gid_idx then replicate 16 0 else (w.env.query_gid w.tick).1

-- The calls made before the connection data is written.
abbrev pub exchange_tick : World → ℕ
exchange_tick w = if is_negative w.config.gid_idx then w.tick else suc w.tick

pub query_my_gid_lem :
    (w : World)
    → Post
        (λ (ret, gid) v. (gid ≡ my_gid w) × (v ≡ record w { tick = exchange_tick w }))
        (λ _. Unit)
        (query_my_gid w)
unfolding query_my_gid
query_my_gid_lem w = elim (Bool-cases (is_negative w.config.gid_idx)) [
  | inl none ↦ rw none (record { outcome = (refl, refl) })
  | inr some ↦ rw some (record { outcome = (refl, refl) })
]

-- The other side, of environment f, means the data d: its bytes come, in some pieces, as this side reads
-- the connection data, and the write of this side's takes all of them.
pub record PeerSends (f : Env) (d : ConData) (fuel : ℕ) (w : World) : Type 0 where
  pub sock_open : IsOpen w.res.sockfd w
  pub same : SameNetwork f w.env
  pub range : IsConData d
  pub sent : less_than (w.env.write (exchange_tick w)) con_data_size ≡ false
  pub pieces : List (List ℕ)
  pub delivered : Delivers w.env (suc (exchange_tick w)) pieces
  pub bytes : flatten pieces ≡ store_con_data (to_network f d)
  pub enough : length pieces < fuel

-- The connection data that this side tells.
abbrev pub own_data : World → List ℕ → List ℕ
own_data w gid =
    store_con_data
      (to_network w.env (local_con_data w.env w.res.buf w.res.mr w.res.qp w.res.lid gid))

-- Where it has told the peer its connection data, and stored d as the peer's.
abbrev pub exchanged : World → List ℕ → ConData → World
exchanged w gid d = record w {
  res = record w.res { remote_props = d };
  log = wrote (take con_data_size (own_data w gid)) ∷ w.log;
}

exchange-Tells :
    (fuel : ℕ) (gid : List ℕ) (w : World)
    → Post
        (λ ret v.
          is_minus_one ret ≡ false
          → (d : ConData) × Tells (exchanged w gid d).log (exchanged w gid d) v)
        (λ _. Unit)
        (exchange fuel gid w)
unfolding exchange
exchange-Tells fuel gid w =
    bind (sock_sync_data-Tells fuel w.res.sockfd con_data_size (own_data w gid) w)
      λ (rc, reply) v t. elim (Bool-cases (is_minus_one rc)) [
        | inl failed ↦ rw failed (record { outcome = λ e. ground arith })
        | inr fine ↦ rw fine (record {
          outcome = λ e. (
            from_network w.env (load_con_data reply),
            record {
              told = t.told;
              same_res =
                  ap
                    (λ (r : Resources). record r {
                      remote_props = from_network w.env (load_con_data reply);
                    })
                    t.same_res;
              same_env = t.same_env;
              same_config = t.same_config;
            },
          );
        })
      ]

-- What the exchange stores is what the other side means.
exchange-peer :
    {f : Env} {d : ConData} {fuel : ℕ} (gid : List ℕ) (w : World)
    → PeerSends f d fuel w
    → Post
        (λ ret v. is_minus_one ret ≡ false → Tells (exchanged w gid d).log (exchanged w gid d) v)
        (λ _. ⊥)
        (exchange fuel gid (record w { tick = exchange_tick w }))
exchange-peer {f} {d} {fuel} gid w h =
    mono
      (both
        (exchange-remote_props f d h.pieces fuel gid (record w { tick = exchange_tick w })
          (IsOpen-live w.res.sockfd w (record w { tick = exchange_tick w }) h.sock_open refl) h.same
          h.range h.sent h.delivered h.bytes h.enough)
        (exchange-Tells fuel gid (record w { tick = exchange_tick w })))
      λ ret v ((zero, stored, clean), told) fine. record {
        told = (told fine).1.told;
        same_res = stored;
        same_env = (told fine).1.same_env;
        same_config = (told fine).1.same_config;
      }

-- From the exchange on, with the gid and the calls that query_my_gid leaves.
pub from_exchange :
    {f : Env} {d : ConData} {fuel : ℕ} {gid : List ℕ} {w v : World}
    → PeerSends f d fuel w
    → gid ≡ my_gid w
    → v ≡ record w { tick = exchange_tick w }
    → Post
        (λ ret u.
          is_minus_one ret ≡ false
          → Tells (exchanged w (my_gid w) d).log (exchanged w (my_gid w) d) u)
        (λ _. ⊥)
        (exchange fuel gid v)
from_exchange {w = w} h eg ev = rw (eg, ev) (exchange-peer (my_gid w) w h)
