-- ===== src/Ibv/Resources/Create.antt =====
-- resources_create of c/ibtest/ibv-rc.c: what is held at each of its stages.
use codelib.Base.{ℕ, ◌≡◌, refl, ◌≢◌, ◌⊎◌, inl, inr, true, false, List, arith, Bool-cases, sym, ◌∙◌}
use mathlib.Core.Bool.{false≢true}
use codelib.Base.Int.{ℤ, minus_one, is_negative, is_zero}
use codelib.Ibv.World.{Ptr, null, Resources, World, Cmd}
use codelib.Ibv.Owned.{Post, bind, mono, weaken_stop, Owns, Documented, IsEmpty, IsFull}
use codelib.Ibv.Sock.Descriptors.{with_listener}
use codelib.Ibv.Resources.{allocate, finish, go_on, resources_create}
use codelib.Ibv.Resources.Release.{finish_lem}
use codelib.Ibv.Resources.Stages.{
  connect_peer_lem, find_device_lem, open_device_lem, allocate_queue_lem, allocate_buffer_lem,
  allocate_pair_lem,
}

allocate_lem :
    {sockets names : List ℕ} {w : World}
    → Owns w.res null sockets names w
    → w.res.ib_ctx ≢ null
    → is_negative w.res.sockfd ≡ false
    → (w.res.pd ≡ null) × (w.res.cq ≡ null) × (w.res.buf ≡ null)
    → (w.res.mr ≡ null) × (w.res.qp ≡ null)
    → Post
        (λ ret v. Owns v.res null sockets names v × (is_zero ret ≡ true → IsFull v))
        (λ _. ⊥)
        (allocate w)
unfolding allocate
allocate_lem o ctx fd none1 none2 =
    bind (allocate_queue_lem o ctx none1.0 none1.1) λ ret1 w1 (o1, _, e1, f1).
      elim (Bool-cases (is_zero ret1)) [
        | inr bad ↦ rw bad (record { outcome = (o1, λ good. cc) })
        | inl good1 ↦ rw good1 (
            bind (allocate_buffer_lem o1 (cc e1)) λ ret2 w2 (o2, _, e2, f2).
              elim (Bool-cases (is_zero ret2)) [
                | inr bad ↦ rw bad (record { outcome = (o2, λ good. cc) })
                | inl good2 ↦ rw good2 (
                    mono
                      (allocate_pair_lem o2 (ground arith) (ground arith) (f2 good2) (ground arith)
                        (ground arith))
                      λ ret3 w3 (o3, _, e3, f3). (o3, ground arith))
              ])
      ]

-- On 0 everything that `res` points to was made, and on anything else `res` is empty.
abbrev pub AllOrNothing : ℤ → World → Type 0
AllOrNothing ret w = ((is_zero ret ≡ true) × IsFull w) ⊎ ((is_zero ret ≡ false) × IsEmpty w)

-- What finish does with a result of the last step.
finish_all :
    {dl : Ptr} {sockets names : List ℕ} {w : World} (ret : ℤ)
    → Owns w.res dl sockets names w
    → (is_zero ret ≡ true → IsFull w × (dl ≡ null))
    → Post (λ r v. Owns v.res null sockets names v × AllOrNothing r v) (λ _. ⊥) (finish ret dl w)
unfolding finish
finish_all {dl} ret o full = elim (Bool-cases (is_zero ret)) [
  | inl good ↦ rw good (record { outcome = (ground arith, inl (good, (full good).0)) })
  | inr bad ↦ mono (finish_lem ret o bad) λ r v (e, o', empty). (o', inr (rw e bad, empty))
]

Owns-null :
    {r : Resources} {dl : Ptr} {sockets names : List ℕ} {w : World}
    → Owns r dl sockets names w
    → dl ≡ null
    → Owns r null sockets names w
Owns-null o e = ground arith

go_on_lem :
    {dl : Ptr} {sockets names : List ℕ} {w : World} {X : World → Type 0} (ret : ℤ) (next : Cmd ℤ)
    → Owns w.res dl sockets names w
    → (is_zero ret ≡ true
        → Post (λ r v. Owns v.res null sockets names v × AllOrNothing r v) X (next w))
    → Post (λ r v. Owns v.res null sockets names v × AllOrNothing r v) X (go_on ret dl next w)
unfolding go_on
go_on_lem ret next o more = elim (Bool-cases (is_zero ret)) [
  | inl good ↦ rw good (more good)
  | inr bad ↦ rw bad (weaken_stop (finish_all ret o λ good. absurd (false≢true (sym bad ∙ good))))
]

-- Started with `res` as resources_init leaves its pointers and its socket, and nothing held but the
-- device's name and the forgotten `sockets` and `names`, resources_create returns 0 with every
-- resource made, or another result with every resource given back, the device list too; what is
-- held is what `res` points to, the name, and on the server that got past bind the listening
-- socket. It exits with nothing but what was held before. Nothing is used that is not held. It is
-- assumed that `socket` returns a descriptor or -1, and that `strdup` finds memory.
pub resources_create_lem :
    {sockets names : List ℕ} {w : World}
    → Documented w.env
    → Owns w.res null sockets names w
    → IsEmpty w
    → w.res.sockfd ≡ minus_one
    → Post
        (λ ret v.
          Owns v.res null (with_listener w.config.server_name w.env w.tick sockets) names v
          × AllOrNothing ret v)
        (λ v. Owns w.res null sockets names v)
        (resources_create w)
unfolding resources_create
resources_create_lem {w} d o e closed =
    bind (connect_peer_lem d o e closed) λ ret1 w1 (o1, same1, e1, f1). go_on_lem ret1 _ o1 λ good1.
      weaken_stop (
        bind (find_device_lem (rw same1.0 d) o1) λ (ret2, dl, dev) w2 (o2, same2, e2, f2).
          go_on_lem ret2 _ o2 λ good2.
            bind (open_device_lem dev o2 (f2 good2) (cc (e.context_null)))
              λ (ret3, dl3) w3 (o3, same3, e3, f3). go_on_lem ret3 _ o3 λ good3.
                let open_fd = f1 good1 in
                let made = f3 good3 in
                bind
                  (allocate_lem (Owns-null o3 made.1) made.0 (ground arith) (ground arith)
                    (ground arith))
                  λ ret4 w4 (o4, f4). finish_all ret4 o4 λ good4. (f4 good4, refl))
