-- ===== src/Ibv/Sock/Exchange.antt =====
-- sock_sync_data and poll_completion of c/ibtest/ibv-rc.c: what they leave alone.
use codelib.Base.{ℕ, zero, suc, ◌≡◌, refl, true, List, [], arith, Bool-cases, inl, inr, ltb, ◌&&◌}
use codelib.Base.Int.{ℤ, pos, negsuc, is_negative, is_minus_one, is_zero}
use codelib.Ibv.World.{World, has, cq}
use codelib.Ibv.Owned.{Post, bind, Kept, IsOpen, Ready}
use codelib.Ibv.Sock.{
  recv_some, recv_loop, sock_sync_data, poll_once, poll_loop, poll_completion, less_than, plus,
  max_poll_cq_timeout, sub_ulong,
}

-- Nothing was handed over since the first world, and its structure is as it was.
pub record Untouched (w v : World) : Type 0 where
  pub kept : Kept w v
  pub res_kept : v.res ≡ w.res

pub Untouched-refl : (w : World) → Untouched w w
Untouched-refl w = record {
  kept = record { live_kept = refl; misuse_kept = refl; config_kept = refl; env_kept = refl };
  res_kept = refl;
}

module _ (w : World) where
  recv_some_lem :
      (fd : ℤ) (size : ℕ) (got : List ℕ) {v : World}
      → IsOpen fd w
      → Untouched w v
      → Post (λ _ u. Untouched w u) (λ u. Untouched w u) (recv_some fd size got v)
  unfolding recv_some
  recv_some_lem (pos fd) size got h u = ground arith
  recv_some_lem (negsuc n) size got h u = absurd h

  recv_loop_lem :
      (fuel : ℕ) (fd : ℤ) (size n : ℕ) (got : List ℕ) {v : World}
      → IsOpen fd w
      → Untouched w v
      → Post (λ _ u. Untouched w u) (λ u. Untouched w u) (recv_loop fuel fd size n got v)
  unfolding recv_loop
  recv_loop_lem zero fd size n got h u = record { outcome = u }
  recv_loop_lem (suc fuel) fd size n got h u = elim (Bool-cases (ltb n size)) [
    | inr done ↦ rw done (record { outcome = u })
    | inl more ↦ rw more (
        bind (recv_some_lem fd size got h u) λ (tmp, filled) v1 u1.
          elim (Bool-cases (is_negative tmp)) [
            | inl neg ↦ rw neg (record { outcome = u1 })
            | inr nonneg ↦ rw nonneg (elim (Bool-cases (is_minus_one tmp)) [
              | inl eof ↦ rw eof (record { outcome = u1 })
              | inr some ↦ rw some (recv_loop_lem fuel fd size (plus n tmp) filled h u1)
            ])
          ])
  ]

  poll_once_lem :
      {v : World}
      → has w.res.cq (w.live cq) ≡ true
      → Untouched w v
      → Post (λ _ u. Untouched w u) (λ u. Untouched w u) (poll_once v)
  unfolding poll_once
  poll_once_lem h u = ground arith

  poll_loop_lem :
      (fuel start : ℕ) {v : World}
      → has w.res.cq (w.live cq) ≡ true
      → Untouched w v
      → Post (λ _ u. Untouched w u) (λ u. Untouched w u) (poll_loop fuel start v)
  unfolding poll_loop
  poll_loop_lem zero start h u = record { outcome = u }
  poll_loop_lem (suc fuel) start h u = bind (poll_once_lem h u) λ (r, status, now) v1 u1.
      elim (Bool-cases (is_zero r && ltb (sub_ulong now start) max_poll_cq_timeout)) [
        | inl again ↦ rw again (poll_loop_lem fuel start h u1)
        | inr done ↦ rw done (record { outcome = u1 })
      ]

-- With an open socket sock_sync_data touches nothing, however it ends.
pub sock_sync_data_lem :
    (fuel : ℕ) (fd : ℤ) (size : ℕ) (local : List ℕ) {w : World}
    → IsOpen fd w
    → Post (λ _ v. Untouched w v) (λ v. Untouched w v) (sock_sync_data fuel fd size local w)
unfolding sock_sync_data
sock_sync_data_lem fuel (negsuc n) size local h = absurd h
sock_sync_data_lem fuel (pos fd) size local {w} h =
    elim (Bool-cases (less_than (w.env.write w.tick) size)) [
      | inl short ↦ rw short (ground arith)
      | inr sent ↦ rw sent (recv_loop_lem w fuel (pos fd) size 0 [] h (ground arith))
    ]

-- With a completion queue poll_completion touches nothing, however it ends.
pub poll_completion_lem :
    (fuel : ℕ) {w : World}
    → has w.res.cq (w.live cq) ≡ true
    → Post (λ _ v. Untouched w v) (λ v. Untouched w v) (poll_completion fuel w)
unfolding poll_completion
poll_completion_lem fuel {w} h =
    bind (poll_loop_lem w fuel _ h (ground arith)) λ r v u. record { outcome = u }

module _ {sockets names : List ℕ} {w : World} (ready : Ready sockets names w) where
  pub Untouched-Ready : {v : World} → Untouched w v → Ready sockets names v
  Untouched-Ready u = ground arith

  pub Ready-IsOpen : IsOpen w.res.sockfd w
  Ready-IsOpen = ground arith

  pub Ready-cq : has w.res.cq (w.live cq) ≡ true
  Ready-cq = ground arith
