-- ===== src/Ibv/Main/Returns.antt =====
-- A session of c/ibtest/ibv-rc.c returns.
use Prim.Native.String.{String}
use codelib.Base.{ℕ, suc, ◌+◌, ◌*◌, ◌<◌, ◌≡◌, refl, ap, ◌∙◌, false, Bool-cases, inl, inr, arith}
use codelib.Base.Int.{ℤ, is_zero}
use codelib.Ibv.World.{World, Env, Cmd, rdma_read, rdma_write, Opcode}
use codelib.Ibv.Owned.{bind, mono, both}
use codelib.Ibv.Sock.{poll_completion, msec}
use codelib.Ibv.Sock.Told.{poll_completion_quiet}
use codelib.Ibv.Sock.Poll.{in_time, poll_completion_ends}
use codelib.Ibv.Resources.{strcpy_buf, rdma_msg_write}
use codelib.Ibv.Connect.{post_send, con_data_size}
use codelib.Ibv.Connect.Returns.{Brings, Returns, sock_sync_data-Returns, connect_qp-Returns}
use codelib.Ibv.Main.{or_exit, sync, server_send, server_text, client_rdma, is_client, session}

-- The time-out of a poll_completion that starts at any call is over when it has polled so often.
abbrev pub GoesOn : Env → ℕ → Type 0
GoesOn e limit = (t : ℕ) → in_time e (msec (e.gettimeofday t)) (suc t + 2 * limit) ≡ false

or_exit-Returns :
    {e : Env} {w : World} (step : Cmd ℤ) (next : Cmd ℕ)
    → Returns e (step w)
    → ((v : World) → v.env ≡ e → Returns e (next v))
    → Returns e (or_exit step next w)
unfolding or_exit
or_exit-Returns step next first more = bind first λ ret v h. elim (Bool-cases (is_zero ret)) [
  | inl good ↦ rw good (more v h)
  | inr bad ↦ rw bad (record { outcome = h })
]

module _ {e : Env} where
  post_send-Returns : (op : Opcode) (w : World) → w.env ≡ e → Returns e (post_send op w)
  unfolding post_send
  post_send-Returns op w h = record { outcome = h }

  server_send-Returns : (w : World) → w.env ≡ e → Returns e (server_send w)
  unfolding server_send is_client post_send
  server_send-Returns w h = ground arith

  server_text-Returns : (w : World) → w.env ≡ e → Returns e (server_text w)
  unfolding server_text is_client strcpy_buf
  server_text-Returns w h = ground arith

  is_client-Returns : (w : World) → w.env ≡ e → Returns e (is_client w)
  unfolding is_client
  is_client-Returns w h = ground arith

  strcpy-Returns : (text : String) (w : World) → w.env ≡ e → Returns e (strcpy_buf text w)
  unfolding strcpy_buf
  strcpy-Returns text w h = record { outcome = h }

module _ {e : Env} (brings : Brings e) where
  sync-Returns :
      (fuel c : ℕ) (w : World) → con_data_size < fuel → w.env ≡ e → Returns e (sync fuel c w)
  unfolding sync
  sync-Returns fuel c w enough h =
      bind (sock_sync_data-Returns brings fuel w.res.sockfd 1 _ w h (omega (arith, enough)))
        λ p v h'. record { outcome = h' }

module _ {e : Env} {limit : ℕ} (brings : Brings e) (goes_on : GoesOn e limit) where
  poll-Returns :
      (fuel : ℕ) (w : World) → limit < fuel → w.env ≡ e → Returns e (poll_completion fuel w)
  poll-Returns fuel w enough h =
      let (k, le, before, last, run) =
        poll_completion_ends limit fuel w
          (ap (λ (f : Env). in_time f (msec (f.gettimeofday w.tick)) (suc w.tick + 2 * limit)) h
            ∙ goes_on w.tick)
          enough in
      mono
        (both run (
          poll_completion_quiet fuel w
            (record { told = refl; same_res = refl; same_env = refl; same_config = refl })))
        λ ret v (r, t). t.same_env ∙ h

  client_rdma-Returns :
      (fuel : ℕ) (next : Cmd ℕ) (w : World)
      → limit < fuel
      → ((v : World) → v.env ≡ e → Returns e (next v))
      → w.env ≡ e
      → Returns e (client_rdma fuel next w)
  unfolding client_rdma
  client_rdma-Returns fuel next w enough more h = bind (is_client-Returns w h) λ client v h0.
      elim (Bool-cases client) [
        | inr server ↦ rw server (more v h0)
        | inl c ↦ rw c (
            or_exit-Returns (post_send rdma_read) _ (post_send-Returns rdma_read v h0) λ v1 h1.
              or_exit-Returns (poll_completion fuel) _ (poll-Returns fuel v1 enough h1) λ v2 h2.
                bind (strcpy-Returns rdma_msg_write v2 h2) λ x v3 h3.
                  or_exit-Returns (post_send rdma_write) _ (post_send-Returns rdma_write v3 h3)
                    λ v4 h4.
                      or_exit-Returns (poll_completion fuel) _ (poll-Returns fuel v4 enough h4)
                        more)
      ]

  pub session-Returns :
      (fuel : ℕ) (w : World)
      → con_data_size < fuel
      → limit < fuel
      → w.env ≡ e
      → Returns e (session fuel w)
  unfolding session
  session-Returns fuel w long enough h =
      or_exit-Returns _ _ (connect_qp-Returns brings fuel w h long) λ v1 h1.
        or_exit-Returns server_send _ (server_send-Returns v1 h1) λ v2 h2.
          or_exit-Returns (poll_completion fuel) _ (poll-Returns fuel v2 enough h2) λ v3 h3.
            bind (server_text-Returns v3 h3) λ x v4 h4.
              or_exit-Returns (sync fuel b'R') _ (sync-Returns brings fuel b'R' v4 long h4) λ v5 h5.
                client_rdma-Returns fuel _ v5 enough
                  (λ v6 h6.
                    or_exit-Returns (sync fuel b'W') _ (sync-Returns brings fuel b'W' v6 long h6)
                      λ v7 h7. record { outcome = h7 })
                  h5
