-- ===== src/Ibv/Connect/Data.antt =====
-- The connection data of c/ibtest/ibv-rc.c that one side stores and the other loads.
use mathlib.Core.List.{flatten}
use native.Mathlib.Nat.{pow-suc, mul_comm}
use codelib.Base.{ℕ, zero, suc, ◌/◌, ◌^◌, ◌<◌, ◌≡◌, refl, ◌∙◌, ap, false, List, ◌++◌, arith, length}
use codelib.Base.Lists.{take_all}
use codelib.Ibv.World.{ConData, Env, World}
use codelib.Base.Int.{pos}
use codelib.Ibv.Owned.{Post, bind, both, IsOpen}
use codelib.Ibv.Sock.{less_than}
use codelib.Ibv.Sock.Receive.{Delivers, sock_sync_data-Delivers}
use codelib.Ibv.Sock.Exchange.{sock_sync_data_lem}
use codelib.Ibv.Connect.{
  exchange, store_uint, load_uint, store_con_data, load_con_data, to_network, from_network,
  con_data_size,
}

load_uint-store_uint :
    (n x : ℕ) (rest : List ℕ) → x < 256 ^ n → load_uint n (store_uint n x ++ rest) ≡ x
unfolding load_uint store_uint
load_uint-store_uint zero x rest h = omega arith
load_uint-store_uint (suc n) x rest h = omega (
  arith,
  load_uint-store_uint n (x / 256) rest (omega (arith, pow-suc 256 n, mul_comm (256 ^ n) 256)),
)

-- The ranges of the structure's fields.
pub record IsConData (d : ConData) : Type 0 where
  pub addr_range : d.addr < 2 ^ 64
  pub rkey_range : d.rkey < 2 ^ 32
  pub qp_num_range : d.qp_num < 2 ^ 32
  pub lid_range : d.lid < 2 ^ 16
  pub gid_length : length d.gid ≡ 16

-- The structure that some bytes hold is the one that was stored as those bytes.
load_con_data-store_con_data : (d : ConData) → IsConData d → load_con_data (store_con_data d) ≡ d
unfolding load_con_data store_con_data
load_con_data-store_con_data d h = λ i. record {
  addr = load_uint-store_uint 8 d.addr after_addr h.addr_range i;
  rkey = load_uint-store_uint 4 d.rkey after_rkey h.rkey_range i;
  qp_num = load_uint-store_uint 4 d.qp_num after_qp_num h.qp_num_range i;
  lid = load_uint-store_uint 2 d.lid d.gid h.lid_range i;
  gid = take_all d.gid 16 h.gid_length i;
}
  where
    after_qp_num : List ℕ
    after_qp_num = store_uint 2 d.lid ++ d.gid

    after_rkey : List ℕ
    after_rkey = store_uint 4 d.qp_num ++ after_qp_num

    after_addr : List ℕ
    after_addr = store_uint 4 d.rkey ++ after_rkey

-- What htonll and its kin promise of two hosts: the second reads what the first sends.
pub record SameNetwork (e f : Env) : Type 0 where
  pub ll : (x : ℕ) → x < 2 ^ 64 → (e.htonll x < 2 ^ 64) × (f.ntohll (e.htonll x) ≡ x)
  pub l : (x : ℕ) → x < 2 ^ 32 → (e.htonl x < 2 ^ 32) × (f.ntohl (e.htonl x) ≡ x)
  pub s : (x : ℕ) → x < 2 ^ 16 → (e.htons x < 2 ^ 16) × (f.ntohs (e.htons x) ≡ x)

-- The data that one host sends is the data that the other takes from its bytes.
pub from_network-to_network :
    (e f : Env) (d : ConData)
    → SameNetwork e f
    → IsConData d
    → from_network f (load_con_data (store_con_data (to_network e d))) ≡ d
from_network-to_network e f d same h =
    ap (from_network f) (load_con_data-store_con_data (to_network e d) sent) ∙ λ i. record {
      addr = (same.ll d.addr h.addr_range).1 i;
      rkey = (same.l d.rkey h.rkey_range).1 i;
      qp_num = (same.l d.qp_num h.qp_num_range).1 i;
      lid = (same.s d.lid h.lid_range).1 i;
      gid = d.gid;
    }
  where
    sent : IsConData (to_network e d)
    sent = record {
      addr_range = (same.ll d.addr h.addr_range).0;
      rkey_range = (same.l d.rkey h.rkey_range).0;
      qp_num_range = (same.l d.qp_num h.qp_num_range).0;
      lid_range = (same.s d.lid h.lid_range).0;
      gid_length = h.gid_length;
    }

pub length-store_con_data :
    (d : ConData) → length d.gid ≡ 16 → length (store_con_data d) ≡ con_data_size
unfolding store_con_data
length-store_con_data d h = omega arith

-- The bytes of the other host's connection data, come in whatever pieces, end up in
-- `res.remote_props` as the data that the other host meant; `exchange` returns 0 and stores
-- nothing past the end of its structure. The write is assumed to take all that it is given.
pub exchange-remote_props :
    (f : Env) (d : ConData) (cs : List (List ℕ)) (fuel : ℕ) (my_gid : List ℕ) (w : World)
    → IsOpen w.res.sockfd w
    → SameNetwork f w.env
    → IsConData d
    → less_than (w.env.write w.tick) con_data_size ≡ false
    → Delivers w.env (suc w.tick) cs
    → flatten cs ≡ store_con_data (to_network f d)
    → length cs < fuel
    → Post
        (λ ret v.
          (ret ≡ pos 0) × (v.res ≡ record w.res { remote_props = d }) × (v.overrun ≡ w.overrun))
        (λ _. ⊥)
        (exchange fuel my_gid w)
unfolding exchange
exchange-remote_props f d cs fuel my_gid w h same range sent got all enough =
    bind
      (both
        (sock_sync_data-Delivers cs fuel w.res.sockfd con_data_size _ w h sent got enough
          (ap length all ∙ length-store_con_data (to_network f d) range.gid_length))
        (sock_sync_data_lem fuel w.res.sockfd con_data_size _ h))
      λ (rc, reply) v ((e1, e2, e3), u). rw e1 (record {
        outcome = (
          refl,
          λ i. record (u.res_kept i) {
            remote_props =
                (ap (λ bs. from_network w.env (load_con_data bs)) (e2 ∙ all)
                    ∙ from_network-to_network f w.env d same range)
                  i;
          },
          e3,
        );
      })
