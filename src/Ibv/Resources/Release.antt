-- ===== src/Ibv/Resources/Release.antt =====
-- The cleanup of resources_create, and resources_destroy: who holds what after each step.
use codelib.Base.{ℕ, ◌≡◌, refl, true, false, List, arith}
use codelib.Base.Int.{ℤ, pos, is_negative, is_zero, minus_one}
use codelib.Ibv.World.{Ptr, null, Resources, World, context, pd, cq, buf, mr, qp}
use codelib.Ibv.Owned.{Post, bind, mono, Owns, IsEmpty}
use codelib.Ibv.Resources.{
  drop_object, drop_list, drop_socket, cleanup, finish, destroy_object, destroy_buf, destroy_socket,
  resources_destroy, no_resources,
}

module _ {dl : Ptr} {sockets names : List ℕ} {w : World} (o : Owns w.res dl sockets names w) where
  drop_qp :
      Post
        (λ _ v. Owns v.res dl sockets names v × (v.res ≡ record w.res { qp = null }))
        (λ _. ⊥)
        (drop_object qp (λ r. r.qp) (λ r. record r { qp = null }) w)
  drop_qp = ground arith

  drop_mr :
      Post
        (λ _ v. Owns v.res dl sockets names v × (v.res ≡ record w.res { mr = null }))
        (λ _. ⊥)
        (drop_object mr (λ r. r.mr) (λ r. record r { mr = null }) w)
  drop_mr = ground arith

  drop_buf :
      w.res.mr ≡ null
      → Post
          (λ _ v. Owns v.res dl sockets names v × (v.res ≡ record w.res { buf = null }))
          (λ _. ⊥)
          (drop_object buf (λ r. r.buf) (λ r. record r { buf = null }) w)
  drop_buf h = ground arith

  drop_cq :
      w.res.qp ≡ null
      → Post
          (λ _ v. Owns v.res dl sockets names v × (v.res ≡ record w.res { cq = null }))
          (λ _. ⊥)
          (drop_object cq (λ r. r.cq) (λ r. record r { cq = null }) w)
  drop_cq h = ground arith

  drop_pd :
      (w.res.qp ≡ null) × (w.res.mr ≡ null)
      → Post
          (λ _ v. Owns v.res dl sockets names v × (v.res ≡ record w.res { pd = null }))
          (λ _. ⊥)
          (drop_object pd (λ r. r.pd) (λ r. record r { pd = null }) w)
  drop_pd h = ground arith

  drop_context :
      (w.res.cq ≡ null) × (w.res.pd ≡ null)
      → Post
          (λ _ v. Owns v.res dl sockets names v × (v.res ≡ record w.res { ib_ctx = null }))
          (λ _. ⊥)
          (drop_object context (λ r. r.ib_ctx) (λ r. record r { ib_ctx = null }) w)
  drop_context h = ground arith

  drop_list_lem :
      Post (λ _ v. Owns v.res null sockets names v × (v.res ≡ w.res)) (λ _. ⊥) (drop_list dl w)
  drop_list_lem = ground arith

  drop_socket_lem :
      Post
        (λ _ v.
          Owns v.res dl sockets names v
          × (v.res ≡ record w.res { sockfd = v.res.sockfd })
          × (is_negative v.res.sockfd ≡ true))
        (λ _. ⊥)
        (drop_socket w)
  drop_socket_lem = ground arith

-- The cleanup releases every object once, each before what it depends on, and clears `res`.
cleanup_lem :
    {dl : Ptr} {sockets names : List ℕ} {w : World}
    → Owns w.res dl sockets names w
    → Post (λ _ v. Owns v.res null sockets names v × IsEmpty v) (λ _. ⊥) (cleanup dl w)
unfolding cleanup
cleanup_lem o = bind (drop_qp o) λ _ w1 (o1, e1). bind (drop_mr o1) λ _ w2 (o2, e2).
    bind (drop_buf o2 (ground arith)) λ _ w3 (o3, e3).
      bind (drop_cq o3 (ground arith)) λ _ w4 (o4, e4).
        bind (drop_pd o4 (ground arith)) λ _ w5 (o5, e5).
          bind (drop_context o5 (ground arith)) λ _ w6 (o6, e6).
            bind (drop_list_lem o6)
              λ _ w7 (o7, e7). mono (drop_socket_lem o7) λ _ w8 (o8, e8, closed). (o8, ground arith)

pub finish_lem :
    {dl : Ptr} {sockets names : List ℕ} {w : World} (ret : ℤ)
    → Owns w.res dl sockets names w
    → is_zero ret ≡ false
    → Post
        (λ r v. (r ≡ ret) × Owns v.res null sockets names v × IsEmpty v)
        (λ _. ⊥)
        (finish ret dl w)
unfolding finish
finish_lem ret o e = rw e (bind (cleanup_lem o) λ _ v p. record { outcome = (refl, p.0, p.1) })

module _ {r : Resources} {sockets names : List ℕ} {w : World} (ret : ℤ)
    (o : Owns r null sockets names w) where
  destroy_qp :
      Post
        (λ _ v. Owns (record r { qp = null }) null sockets names v × (v.config ≡ w.config))
        (λ _. ⊥)
        (destroy_object qp r.qp ret w)
  destroy_qp = ground arith

  destroy_mr :
      Post
        (λ _ v. Owns (record r { mr = null }) null sockets names v × (v.config ≡ w.config))
        (λ _. ⊥)
        (destroy_object mr r.mr ret w)
  destroy_mr = ground arith

  destroy_buf_lem :
      r.mr ≡ null
      → Post
          (λ _ v. Owns (record r { buf = null }) null sockets names v × (v.config ≡ w.config))
          (λ _. ⊥)
          (destroy_buf r.buf ret w)
  destroy_buf_lem h = ground arith

  destroy_cq :
      r.qp ≡ null
      → Post
          (λ _ v. Owns (record r { cq = null }) null sockets names v × (v.config ≡ w.config))
          (λ _. ⊥)
          (destroy_object cq r.cq ret w)
  destroy_cq h = ground arith

  destroy_pd :
      (r.qp ≡ null) × (r.mr ≡ null)
      → Post
          (λ _ v. Owns (record r { pd = null }) null sockets names v × (v.config ≡ w.config))
          (λ _. ⊥)
          (destroy_object pd r.pd ret w)
  destroy_pd h = ground arith

  destroy_context :
      (r.cq ≡ null) × (r.pd ≡ null)
      → Post
          (λ _ v. Owns (record r { ib_ctx = null }) null sockets names v × (v.config ≡ w.config))
          (λ _. ⊥)
          (destroy_object context r.ib_ctx ret w)
  destroy_context h = ground arith

  destroy_socket_lem :
      Post
        (λ _ v. Owns (record r { sockfd = minus_one }) null sockets names v × (v.config ≡ w.config))
        (λ _. ⊥)
        (destroy_socket r.sockfd ret w)
  destroy_socket_lem = ground arith

-- Where the objects held are those that `res` points to, the device's name and the forgotten
-- `sockets` and `names`, resources_destroy returns, and gives every object that `res` points to
-- back, once and before what it depends on; the others and the configuration stay.
pub resources_destroy_lem :
    {sockets names : List ℕ} {w : World}
    → Owns w.res null sockets names w
    → Post
        (λ _ v. Owns no_resources null sockets names v × (v.config ≡ w.config))
        (λ _. ⊥)
        (resources_destroy w)
unfolding resources_destroy
resources_destroy_lem {w} o = bind (destroy_qp (pos 0) o) λ r1 w1 (o1, e1).
    bind (destroy_mr r1 o1) λ r2 w2 (o2, e2). bind (destroy_buf_lem r2 o2 refl) λ r3 w3 (o3, e3).
      bind (destroy_cq r3 o3 refl) λ r4 w4 (o4, e4).
        bind (destroy_pd r4 o4 (refl, refl)) λ r5 w5 (o5, e5).
          bind (destroy_context r5 o5 (refl, refl))
            λ r6 w6 (o6, e6). mono (destroy_socket_lem r6 o6) λ r7 w7 (o7, e7). (ground arith, cc)
