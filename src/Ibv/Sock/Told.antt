-- ===== src/Ibv/Sock/Told.antt =====
-- What sock_sync_data and poll_completion of c/ibtest/ibv-rc.c tell the peer and the hardware.
use codelib.Base.{
  ℕ, zero, suc, ◌≡◌, refl, Bool, true, false, if◌then◌else◌, Bool-cases, inl, inr, ltb, ◌&&◌, List,
  [], ◌∷◌, arith, take,
}
use codelib.Base.Int.{ℤ, pos, negsuc, minus_one, is_negative, is_minus_one, is_zero}
use codelib.Ibv.World.{World, Event, wrote, pure}
use codelib.Ibv.Owned.{Post, bind}
use codelib.Ibv.Sock.{
  recv_some, recv_loop, sock_sync_data, less_than, plus, poll_once, poll_loop, poll_completion,
  max_poll_cq_timeout, sub_ulong,
}

-- The peer and the hardware have been told this, newest first, and what the rest depends on is as it was.
pub record Tells (log : List Event) (w v : World) : Type 0 where
  pub told : v.log ≡ log
  pub same_res : v.res ≡ w.res
  pub same_env : v.env ≡ w.env
  pub same_config : v.config ≡ w.config

recv_some_quiet :
    (fd : ℤ) (size : ℕ) (got : List ℕ) (w : World) {v : World} {log : List Event}
    → Tells log w v
    → Post (λ _ u. Tells log w u) (λ _. Unit) (recv_some fd size got v)
unfolding recv_some
recv_some_quiet fd size got w h = ground (arith, h)

recv_loop_quiet :
    (fuel : ℕ) (fd : ℤ) (size n : ℕ) (got : List ℕ) (w : World) {v : World} {log : List Event}
    → Tells log w v
    → Post (λ _ u. Tells log w u) (λ _. Unit) (recv_loop fuel fd size n got v)
unfolding recv_loop
recv_loop_quiet zero fd size n got w h = record { outcome = tt }
recv_loop_quiet (suc fuel) fd size n got w h = elim (Bool-cases (ltb n size)) [
  | inr done ↦ rw done (record { outcome = h })
  | inl more ↦ rw more (
      bind (recv_some_quiet fd size got w h) λ (tmp, filled) v u.
        elim (Bool-cases (is_negative tmp)) [
          | inl neg ↦ rw neg (record { outcome = u })
          | inr nonneg ↦ rw nonneg (elim (Bool-cases (is_minus_one tmp)) [
            | inl eof ↦ rw eof (record { outcome = u })
            | inr some ↦ rw some (recv_loop_quiet fuel fd size (plus n tmp) filled w u)
          ])
        ])
]

-- What follows on the write, which was short or not.
receive_quiet :
    (short : Bool) (fuel : ℕ) (fd : ℤ) (size : ℕ) (w : World) {v : World} {log : List Event}
    → Tells log w v
    → Post
        (λ _ u. Tells log w u)
        (λ _. Unit)
        ((if short then pure (minus_one, []) else recv_loop fuel fd size 0 []) v)
receive_quiet true fuel fd size w h = record { outcome = h }
receive_quiet false fuel fd size w h = recv_loop_quiet fuel fd size 0 [] w h

pub sock_sync_data-Tells :
    (fuel : ℕ) (fd : ℤ) (size : ℕ) (local : List ℕ) (w : World)
    → Post
        (λ _ v. Tells (wrote (take size local) ∷ w.log) w v)
        (λ _. Unit)
        (sock_sync_data fuel fd size local w)
unfolding sock_sync_data
sock_sync_data-Tells fuel (pos fd) size local w =
    receive_quiet (less_than (w.env.write w.tick) size) fuel (pos fd) size w
      (record { told = refl; same_res = refl; same_env = refl; same_config = refl })
sock_sync_data-Tells fuel (negsuc fd) size local w =
    receive_quiet (less_than (w.env.write w.tick) size) fuel (negsuc fd) size w
      (record { told = refl; same_res = refl; same_env = refl; same_config = refl })

poll_once_quiet :
    (w : World) {v : World} {log : List Event}
    → Tells log w v
    → Post (λ _ u. Tells log w u) (λ _. Unit) (poll_once v)
unfolding poll_once
poll_once_quiet w h = ground (arith, h)

poll_loop_quiet :
    (fuel start : ℕ) (w : World) {v : World} {log : List Event}
    → Tells log w v
    → Post (λ _ u. Tells log w u) (λ _. Unit) (poll_loop fuel start v)
unfolding poll_loop
poll_loop_quiet zero start w h = record { outcome = tt }
poll_loop_quiet (suc fuel) start w h = bind (poll_once_quiet w h) λ (r, status, now) v u.
    elim (Bool-cases (is_zero r && ltb (sub_ulong now start) max_poll_cq_timeout)) [
      | inl again ↦ rw again (poll_loop_quiet fuel start w u)
      | inr done ↦ rw done (record { outcome = u })
    ]

pub poll_completion_quiet :
    (fuel : ℕ) (w : World) {v : World} {log : List Event}
    → Tells log w v
    → Post (λ _ u. Tells log w u) (λ _. Unit) (poll_completion fuel v)
unfolding poll_completion
poll_completion_quiet fuel w h =
    bind (poll_loop_quiet fuel _ w (ground (arith, h))) λ r v u. record { outcome = u }
