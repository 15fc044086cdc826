-- ===== src/Ibv/Connect/Keeps.antt =====
-- connect_qp and the work requests of c/ibtest/ibv-rc.c: what they use and what they leave alone.
use codelib.Base.{ℕ, ◌≡◌, refl, List, arith, Bool-cases, inl, inr, ◌∙◌, if◌then◌else◌}
use codelib.Base.Int.{ℤ, is_minus_one}
use codelib.Ibv.World.{Ptr, Resources, Run, pure, World, Opcode, QpAttr, Cmd}
use codelib.Ibv.Owned.{Post, bind, mono, mono_both, Ready}
use codelib.Ibv.Sock.Exchange.{Untouched-Ready, Ready-IsOpen, sock_sync_data_lem}
use codelib.Ibv.Sock.{sock_sync_data}
use codelib.Ibv.Connect.{
  modify_qp_to, modify_qp_to_init, modify_qp_to_rtr, modify_qp_to_rts, post_send, post_receive,
  query_my_gid, exchange, client_receive, bring_up, connect_qp,
}

-- However the run ends, all of the resources are still there.
abbrev pub Keeps : List ℕ → List ℕ → {A : Type 0} → Run A → Type 0
Keeps sockets names r = Post (λ _ v. Ready sockets names v) (λ v. Ready sockets names v) r

-- The structure is as it was, too.
abbrev pub KeepsRes : List ℕ → List ℕ → Resources → {A : Type 0} → Run A → Type 0
KeepsRes sockets names r run =
    Post (λ _ v. Ready sockets names v × (v.res ≡ r)) (λ v. Ready sockets names v) run

module _ {sockets names : List ℕ} {w : World} (ready : Ready sockets names w) where
  pub post_send_lem : (opcode : Opcode) → Keeps sockets names (post_send opcode w)
  unfolding post_send
  post_send_lem opcode = ground arith

  modify_qp_lem :
      (attr : QpAttr) (q : Ptr)
      → w.res.qp ≡ q
      → KeepsRes sockets names w.res (modify_qp_to attr q w)
  unfolding modify_qp_to
  modify_qp_lem attr q e = ground arith

  modify_qp_to_init_lem :
      (q : Ptr) → w.res.qp ≡ q → KeepsRes sockets names w.res (modify_qp_to_init q w)
  unfolding modify_qp_to_init
  modify_qp_to_init_lem = modify_qp_lem _

  modify_qp_to_rts_lem :
      (q : Ptr) → w.res.qp ≡ q → KeepsRes sockets names w.res (modify_qp_to_rts q w)
  unfolding modify_qp_to_rts
  modify_qp_to_rts_lem = modify_qp_lem _

  modify_qp_to_rtr_lem :
      (number dlid : ℕ) (dgid : List ℕ) (q : Ptr)
      → w.res.qp ≡ q
      → KeepsRes sockets names w.res (modify_qp_to_rtr q number dlid dgid w)
  unfolding modify_qp_to_rtr
  modify_qp_to_rtr_lem number dlid dgid = modify_qp_lem _

  client_receive_lem : KeepsRes sockets names w.res (client_receive w)
  unfolding client_receive post_receive
  client_receive_lem = ground arith

  query_my_gid_lem : KeepsRes sockets names w.res (query_my_gid w)
  unfolding query_my_gid
  query_my_gid_lem = ground arith

  pub sync_lem :
      (fuel size : ℕ) (local : List ℕ)
      → KeepsRes sockets names w.res (sock_sync_data fuel w.res.sockfd size local w)
  sync_lem fuel size local =
      mono_both (sock_sync_data_lem fuel w.res.sockfd size local (Ready-IsOpen ready))
        (λ a v u. (Untouched-Ready ready u, u.res_kept)) (λ v u. Untouched-Ready ready u)

exchange_lem :
    {sockets names : List ℕ} {w : World} (fuel : ℕ) (my_gid : List ℕ)
    → Ready sockets names w
    → Keeps sockets names (exchange fuel my_gid w)
unfolding exchange
exchange_lem fuel my_gid ready = bind (sync_lem ready fuel _ _) λ (rc, reply) v (ready1, e).
    elim (Bool-cases (is_minus_one rc)) [
      | inl bad ↦ rw bad (record { outcome = ready1 })
      | inr good ↦ rw good (ground arith)
    ]

-- A result of -1 ends the chain, and any other goes on.
or_return :
    {sockets names : List ℕ} {w : World} (ret : ℤ) (next : Cmd ℤ)
    → Ready sockets names w
    → Keeps sockets names (next w)
    → Keeps sockets names ((if is_minus_one ret then pure ret else next) w)
or_return ret next ready more = elim (Bool-cases (is_minus_one ret)) [
  | inl bad ↦ rw bad (record { outcome = ready })
  | inr good ↦ rw good more
]

bring_up_lem :
    {sockets names : List ℕ} {w : World} → Ready sockets names w → Keeps sockets names (bring_up w)
unfolding bring_up
bring_up_lem {w} ready = bind (modify_qp_to_init_lem ready w.res.qp refl) λ ret1 w1 (ready1, e1).
    or_return ret1 _ ready1 (
      bind (client_receive_lem ready1) λ ret2 w2 (ready2, e2). or_return ret2 _ ready2 (
        bind (modify_qp_to_rtr_lem ready2 _ _ _ w.res.qp (cc (e2 ∙ e1))) λ ret3 w3 (ready3, e3).
          or_return ret3 _ ready3
            (mono (modify_qp_to_rts_lem ready3 w.res.qp (cc (e3 ∙ e2 ∙ e1))) λ ret4 w4 p. p.0)))

-- Where every resource is there, connect_qp uses only what is held, and leaves every resource in
-- place, whether it connects the queue pairs, fails or never ends.
pub connect_qp_lem :
    {sockets names : List ℕ} {w : World} (fuel : ℕ)
    → Ready sockets names w
    → Keeps sockets names (connect_qp fuel w)
unfolding connect_qp
connect_qp_lem fuel ready = bind (query_my_gid_lem ready) λ (ret1, my_gid) w1 (ready1, e1).
    or_return ret1 _ ready1 (
      bind (exchange_lem fuel my_gid ready1) λ ret2 w2 ready2. or_return ret2 _ ready2 (
        bind (bring_up_lem ready2) λ ret3 w3 ready3.
          or_return ret3 _ ready3
            (bind (sync_lem ready3 fuel 1 _) λ p w4 (ready4, e4). record { outcome = ready4 })))
