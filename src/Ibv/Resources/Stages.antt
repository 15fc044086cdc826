-- ===== src/Ibv/Resources/Stages.antt =====
-- What each stage of resources_create of c/ibtest/ibv-rc.c makes.
use Prim.Native.String.{String}
use codelib.Base.{
  ℕ, ◌≡◌, refl, ◌≢◌, inl, inr, true, false, some, List, [], ◌∷◌, arith, ◌==◌, Bool-cases, length,
}
use codelib.Base.Int.{minus_one, is_negative, is_zero}
use codelib.Ibv.World.{Ptr, null, HeapString, Resources, World}
use codelib.Ibv.Owned.{Post, bind, mono, Owns, Documented, Same, IsEmpty}
use codelib.Ibv.Sock.Descriptors.{with_listener, sock_connect_lem}
use codelib.Ibv.Resources.{
  connect_peer, default_name, same_name, find_loop, find_device, open_device, allocate_queue,
  allocate_buffer, allocate_pair,
}

pub connect_peer_lem :
    {sockets names : List ℕ} {w : World}
    → Documented w.env
    → Owns w.res null sockets names w
    → IsEmpty w
    → w.res.sockfd ≡ minus_one
    → Post
        (λ ret v.
          Owns v.res null (with_listener w.config.server_name w.env w.tick sockets) names v
          × Same w v
          × (v.res ≡ record w.res { sockfd = v.res.sockfd })
          × (is_zero ret ≡ true → is_negative v.res.sockfd ≡ false))
        (λ v. Owns w.res null sockets names v)
        (connect_peer w)
unfolding connect_peer
connect_peer_lem {w} d o e closed =
    bind (sock_connect_lem w.config.server_name w.config.tcp_port d o closed)
      λ fd v (p, same, kept). record { outcome = ground arith }

module _ {r : Resources} {dl : Ptr} {sockets names : List ℕ} where
  default_name_lem :
      {w : World} (device : String)
      → Documented w.env
      → Owns r dl sockets names w
      → Post
          (λ _ v.
            Owns r dl sockets names v
            × Same w v
            × (v.res ≡ w.res)
            × ((s : HeapString) × (v.config.dev_name ≡ some s)))
          (λ _. ⊥)
          (default_name device w)
  unfolding default_name
  default_name_lem {w} device d o = ground (arith, d.strdup_succeeds w.tick)

  same_name_lem :
      {w : World} (device : String) (s : HeapString)
      → w.config.dev_name ≡ some s
      → Owns r dl sockets names w
      → Post
          (λ _ v. Owns r dl sockets names v × Same w v × (v.res ≡ w.res))
          (λ _. ⊥)
          (same_name device w)
  unfolding same_name
  same_name_lem device s e o = ground arith

  find_loop_lem :
      {w : World} (devices : List (Ptr × String))
      → Documented w.env
      → Owns r dl sockets names w
      → Post
          (λ _ v. Owns r dl sockets names v × Same w v × (v.res ≡ w.res))
          (λ _. ⊥)
          (find_loop devices w)
  unfolding find_loop
  find_loop_lem [] d o = record { outcome = (o, (refl, refl), refl) }
  find_loop_lem ((device, text) ∷ rest) d o =
      bind (default_name_lem text d o) λ _ w1 (o1, same1, e1, n).
        bind (same_name_lem text n.0 n.1 o1) λ found w2 (o2, same2, e2). elim (Bool-cases found) [
          | inl t ↦ rw t (record { outcome = (o2, ground arith, cc) })
          | inr f ↦ rw f (
              mono (find_loop_lem rest (rw (same2.0, same1.0) d) o2)
                λ _ v (o3, same3, e3). (o3, ground arith, cc))
        ]

pub find_device_lem :
    {sockets names : List ℕ} {w : World}
    → Documented w.env
    → Owns w.res null sockets names w
    → Post
        (λ (ret, dl, dev) v.
          Owns v.res dl sockets names v
          × Same w v
          × (v.res ≡ w.res)
          × (is_zero ret ≡ true → dl ≢ null))
        (λ _. ⊥)
        (find_device w)
unfolding find_device
find_device_lem {sockets} {names} {w} d o = elim (Bool-cases (dl == null)) [
  | inl e ↦ rw e (ground arith)
  | inr e ↦ rw e (elim (Bool-cases (length devices == 0)) [
    | inl empty ↦ rw empty (ground arith)
    | inr more ↦ rw more (
        bind
          (find_loop_lem {r = w.res} {dl = dl} {sockets = sockets} {names = names} devices d
            (ground arith))
          λ dev v (o', same, kept). ground arith)
  ])
]
  where
    dl : Ptr
    dl = (w.env.get_device_list w.tick).0

    devices : List (Ptr × String)
    devices = (w.env.get_device_list w.tick).1

pub open_device_lem :
    {dl : Ptr} (dev : Ptr) {sockets names : List ℕ} {w : World}
    → Owns w.res dl sockets names w
    → dl ≢ null
    → w.res.ib_ctx ≡ null
    → Post
        (λ (ret, dl) v.
          Owns v.res dl sockets names v
          × Same w v
          × (v.res ≡ record w.res { lid = v.res.lid; ib_ctx = v.res.ib_ctx })
          × (is_zero ret ≡ true → (v.res.ib_ctx ≢ null) × (dl ≡ null)))
        (λ _. ⊥)
        (open_device dl dev w)
unfolding open_device
open_device_lem dev o some_list no_context = ground arith

pub allocate_queue_lem :
    {sockets names : List ℕ} {w : World}
    → Owns w.res null sockets names w
    → w.res.ib_ctx ≢ null
    → w.res.pd ≡ null
    → w.res.cq ≡ null
    → Post
        (λ ret v.
          Owns v.res null sockets names v
          × Same w v
          × (v.res ≡ record w.res { pd = v.res.pd; cq = v.res.cq })
          × (is_zero ret ≡ true → (v.res.pd ≢ null) × (v.res.cq ≢ null)))
        (λ _. ⊥)
        (allocate_queue w)
unfolding allocate_queue
allocate_queue_lem o made no_pd no_cq = ground arith

pub allocate_buffer_lem :
    {sockets names : List ℕ} {w : World}
    → Owns w.res null sockets names w
    → w.res.buf ≡ null
    → Post
        (λ ret v.
          Owns v.res null sockets names v
          × Same w v
          × (v.res ≡ record w.res { buf = v.res.buf })
          × (is_zero ret ≡ true → v.res.buf ≢ null))
        (λ _. ⊥)
        (allocate_buffer w)
unfolding allocate_buffer
allocate_buffer_lem o no_buf = ground arith

pub allocate_pair_lem :
    {sockets names : List ℕ} {w : World}
    → Owns w.res null sockets names w
    → w.res.pd ≢ null
    → w.res.cq ≢ null
    → w.res.buf ≢ null
    → w.res.mr ≡ null
    → w.res.qp ≡ null
    → Post
        (λ ret v.
          Owns v.res null sockets names v
          × Same w v
          × (v.res ≡ record w.res { mr = v.res.mr; qp = v.res.qp })
          × (is_zero ret ≡ true → (v.res.mr ≢ null) × (v.res.qp ≢ null)))
        (λ _. ⊥)
        (allocate_pair w)
unfolding allocate_pair
allocate_pair_lem o p q b no_mr no_qp = ground arith
