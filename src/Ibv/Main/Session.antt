-- ===== src/Ibv/Main/Session.antt =====
-- What the test between the two sides of c/ibtest/ibv-rc.c holds, however it ends.
use Prim.Native.String.{String}
use codelib.Base.{ℕ, ◌≡◌, false, List, arith, Bool-cases, inl, inr}
use codelib.Base.Int.{ℤ, minus_one, is_zero}
use codelib.Ibv.World.{null, World, Run, Cmd, and_then, rdma_read, rdma_write}
use codelib.Ibv.Owned.{Post, bind, mono_both, Owns, Documented, IsEmpty, Ready}
use codelib.Ibv.Sock.Descriptors.{with_listener}
use codelib.Ibv.Sock.Exchange.{Untouched-Ready, Ready-cq, poll_completion_lem}
use codelib.Ibv.Sock.{poll_completion}
use codelib.Ibv.Resources.{strcpy_buf, rdma_msg_write}
use codelib.Ibv.Resources.Create.{resources_create_lem}
use codelib.Ibv.Connect.{post_send}
use codelib.Ibv.Connect.Keeps.{Keeps, sync_lem, post_send_lem, connect_qp_lem}
use codelib.Ibv.Main.{
  or_exit, sync, server_send, server_text, client_rdma, is_client, session, run_test,
}

-- `res` points to all that is held.
abbrev Fine : List ℕ → List ℕ → World → Type 0
Fine sockets names w = Owns w.res null sockets names w

abbrev Safe : World → Type 0
Safe w = w.misuse ≡ false

module _ {sockets names : List ℕ} {w : World} (ready : Ready sockets names w) where
  server_send_lem : Keeps sockets names (server_send w)
  unfolding server_send post_send is_client
  server_send_lem = ground arith

  server_text_lem : Keeps sockets names (server_text w)
  unfolding server_text strcpy_buf is_client
  server_text_lem = ground arith

  is_client_lem : Keeps sockets names (is_client w)
  unfolding is_client
  is_client_lem = ground arith

  poll_lem : (fuel : ℕ) → Keeps sockets names (poll_completion fuel w)
  poll_lem fuel =
      mono_both (poll_completion_lem fuel (Ready-cq ready)) (λ a v u. Untouched-Ready ready u)
        (λ v u. Untouched-Ready ready u)

  strcpy_lem : (s : String) → Keeps sockets names (strcpy_buf s w)
  unfolding strcpy_buf
  strcpy_lem s = ground arith

-- However the run ends, nothing was misused; where it returns, `res` points to all that is held.
abbrev Ends : List ℕ → List ℕ → {A : Type 0} → Run A → Type 0
Ends sockets names r = Post (λ _ v. Fine sockets names v) Safe r

module _ {sockets names : List ℕ} where
  step_Ends :
      {A B : Type 0} {r : Run A} {k : A → Cmd B}
      → Keeps sockets names r
      → ((a : A) (v : World) → Ready sockets names v → Ends sockets names (k a v))
      → Ends sockets names (and_then r k)
  step_Ends keeps more = bind (mono_both keeps (λ a v r. r) (λ v r. r.owns.clean)) more

  or_exit_lem :
      {w : World} (step : Cmd ℤ) (next : Cmd ℕ)
      → Keeps sockets names (step w)
      → ((v : World) → Ready sockets names v → Ends sockets names (next v))
      → Ends sockets names (or_exit step next w)
  unfolding or_exit
  or_exit_lem step next keeps more = step_Ends keeps λ ret v ready.
      elim (Bool-cases (is_zero ret)) [
        | inl good ↦ rw good (more v ready)
        | inr bad ↦ rw bad (record { outcome = ready.owns })
      ]

  sync_char_lem :
      {w : World} (fuel c : ℕ) → Ready sockets names w → Keeps sockets names (sync fuel c w)
  unfolding sync
  sync_char_lem fuel c ready =
      bind (sync_lem ready fuel 1 _) λ p v kept. record { outcome = kept.0 }

  client_rdma_lem :
      {w : World} (fuel : ℕ) (next : Cmd ℕ)
      → Ready sockets names w
      → ((v : World) → Ready sockets names v → Ends sockets names (next v))
      → Ends sockets names (client_rdma fuel next w)
  unfolding client_rdma
  client_rdma_lem fuel next ready more = step_Ends (is_client_lem ready) λ client v ready0.
      elim (Bool-cases client) [
        | inr server ↦ rw server (more v ready0)
        | inl yes_client ↦ rw yes_client (
            or_exit_lem _ _ (post_send_lem ready0 rdma_read) λ v1 ready1.
              or_exit_lem _ _ (poll_lem ready1 fuel) λ v2 ready2.
                step_Ends (strcpy_lem ready2 rdma_msg_write) λ _ v3 ready3.
                  or_exit_lem _ _ (post_send_lem ready3 rdma_write)
                    λ v4 ready4. or_exit_lem _ _ (poll_lem ready4 fuel) more)
      ]

  -- After the resources are made.
  session_lem : {w : World} (fuel : ℕ) → Ready sockets names w → Ends sockets names (session fuel w)
  unfolding session
  session_lem fuel ready = or_exit_lem _ _ (connect_qp_lem fuel ready) λ v1 ready1.
      or_exit_lem _ _ (server_send_lem ready1) λ v2 ready2.
        or_exit_lem _ _ (poll_lem ready2 fuel) λ v3 ready3.
          step_Ends (server_text_lem ready3) λ _ v4 ready4.
            or_exit_lem _ _ (sync_char_lem fuel _ ready4) λ v5 ready5.
              client_rdma_lem fuel _ ready5 λ v6 ready6.
                or_exit_lem _ _ (sync_char_lem fuel _ ready6)
                  λ v7 ready7. record { outcome = ready7.owns }

pub run_test_lem :
    {sockets names : List ℕ} {w : World} (fuel : ℕ)
    → Documented w.env
    → Owns w.res null sockets names w
    → IsEmpty w
    → w.res.sockfd ≡ minus_one
    → Ends (with_listener w.config.server_name w.env w.tick sockets) names (run_test fuel w)
unfolding run_test or_exit
run_test_lem fuel d o e closed =
    bind (mono_both (resources_create_lem d o e closed) (λ a v h. h) (λ v h. h.clean))
      λ ret v (o1, made). elim made [
        | inl (good, full) ↦ rw good (session_lem fuel (record { owns = o1; full = full }))
        | inr (bad, empty) ↦ rw bad (record { outcome = o1 })
      ]
