-- ===== src/Ibv/Connect/Returns.antt =====
-- The calls of c/ibtest/ibv-rc.c that wait for the other side return if it does not close the connection.
use codelib.Base.{
  ℕ, zero, suc, ◌+◌, ◌<◌, ◌≡◌, ap, ◌∙◌, Bool, true, false, if◌then◌else◌, Bool-cases, inl, inr, ltb,
  ltb→lt, List, [], ◌∷◌, arith,
}
use codelib.Base.Int.{ℤ, pos, negsuc, minus_one, is_negative, is_minus_one, is_zero}
use codelib.Ibv.World.{World, Env, Cmd, Run, pure, ask, ◌>>=◌}
use codelib.Ibv.Owned.{Post, bind}
use codelib.Ibv.Sock.{recv_some, recv_loop, sock_sync_data, less_than, plus}
use codelib.Ibv.Connect.{
  con_data_size, exchange, bring_up, query_my_gid, client_receive, post_receive, modify_qp_to_init,
  modify_qp_to_rtr, modify_qp_to_rts, connect_qp,
}

-- Every read fails or brings a byte: the other side does not close the connection.
abbrev pub Brings : Env → Type 0
Brings e = (t : ℕ) → is_zero (e.read t).0 ≡ false

-- A run that returns, with the same answers to come.
abbrev pub Returns : Env → {A : Type 0} → Run A → Type 0
Returns e r = Post (λ _ v. v.env ≡ e) (λ _. ⊥) r

more_read : (x : ℤ) (n : ℕ) → is_zero x ≡ false → is_negative x ≡ false → n < plus n x
more_read (pos m) n z h = ground arith
more_read (negsuc m) n z h = ground arith

module _ {e : Env} where
  recv_some-Returns :
      (fd : ℤ) (size : ℕ) (got : List ℕ) (w : World)
      → w.env ≡ e
      → Post
          (λ (tmp, filled) v. (tmp ≡ (e.read w.tick).0) × (v.env ≡ e))
          (λ _. ⊥)
          (recv_some fd size got w)
  unfolding recv_some
  recv_some-Returns (pos fd) size got w h = record {
    outcome = (ap (λ (f : Env). (f.read w.tick).0) h, h);
  }
  recv_some-Returns (negsuc fd) size got w h = record {
    outcome = (ap (λ (f : Env). (f.read w.tick).0) h, h);
  }

module _ {e : Env} (brings : Brings e) where
  recv_loop-Returns :
      (fuel : ℕ) (fd : ℤ) (size n : ℕ) (got : List ℕ) (w : World)
      → w.env ≡ e
      → 0 < fuel
      → size < n + fuel
      → Returns e (recv_loop fuel fd size n got w)
  unfolding recv_loop
  recv_loop-Returns zero fd size n got w h some enough = absurd (omega (arith, some))
  recv_loop-Returns (suc fuel) fd size n got w h some enough = elim (Bool-cases (ltb n size)) [
    | inr done ↦ rw done (record { outcome = h })
    | inl more ↦ rw more (
        bind (recv_some-Returns fd size got w h) λ (tmp, filled) v (r, h').
          elim (Bool-cases (is_negative tmp)) [
            | inl neg ↦ rw neg (record { outcome = h' })
            | inr nonneg ↦ rw nonneg (elim (Bool-cases (is_minus_one tmp)) [
              | inl eof ↦ rw eof (record { outcome = h' })
              | inr there ↦ rw there (
                  recv_loop-Returns fuel fd size (plus n tmp) filled v h'
                    (omega (arith, enough, ltb→lt n size more))
                    (omega (
                      arith,
                      enough,
                      ltb→lt n size more,
                      more_read tmp n (ap is_zero r ∙ brings w.tick) nonneg,
                    )))
            ])
          ])
  ]

  receive-Returns :
      (short : Bool) (fuel : ℕ) (fd : ℤ) (size : ℕ) (w : World)
      → w.env ≡ e
      → size < fuel
      → Returns e ((if short then pure (minus_one, []) else recv_loop fuel fd size 0 []) w)
  receive-Returns true fuel fd size w h enough = record { outcome = h }
  receive-Returns false fuel fd size w h enough =
      recv_loop-Returns fuel fd size 0 [] w h (omega (arith, enough)) (omega (arith, enough))

  pub sock_sync_data-Returns :
      (fuel : ℕ) (fd : ℤ) (size : ℕ) (local : List ℕ) (w : World)
      → w.env ≡ e
      → size < fuel
      → Returns e (sock_sync_data fuel fd size local w)
  unfolding sock_sync_data
  sock_sync_data-Returns fuel (pos fd) size local w h enough =
      receive-Returns (less_than (w.env.write w.tick) size) fuel (pos fd) size _ h enough
  sock_sync_data-Returns fuel (negsuc fd) size local w h enough =
      receive-Returns (less_than (w.env.write w.tick) size) fuel (negsuc fd) size _ h enough

  exchange-Returns :
      (fuel : ℕ) (gid : List ℕ) (w : World)
      → w.env ≡ e
      → con_data_size < fuel
      → Returns e (exchange fuel gid w)
  unfolding exchange
  exchange-Returns fuel gid w h enough =
      bind (sock_sync_data-Returns fuel w.res.sockfd con_data_size _ w h enough) λ (rc, reply) v h'.
        elim (Bool-cases (is_minus_one rc)) [
          | inl failed ↦ rw failed (record { outcome = h' })
          | inr fine ↦ rw fine (record { outcome = h' })
        ]

query_my_gid-Returns : {e : Env} (w : World) → w.env ≡ e → Returns e (query_my_gid w)
unfolding query_my_gid
query_my_gid-Returns w h = ground arith

bring_up-Returns : {e : Env} (w : World) → w.env ≡ e → Returns e (bring_up w)
unfolding bring_up modify_qp_to_init modify_qp_to_rtr modify_qp_to_rts client_receive post_receive
bring_up-Returns w h = ground arith

-- The end of connect_qp.
sync_q : ℤ → ℕ → Cmd ℤ
sync_q ret fuel = do
  fd ← ask λ w. w.res.sockfd
  (rc, c) ← sock_sync_data fuel fd 1 (b'Q' ∷ [])
  pure (if is_zero rc then ret else minus_one)

module _ {e : Env} (brings : Brings e) where
  sync_q-Returns :
      (ret : ℤ) (fuel : ℕ) (w : World)
      → w.env ≡ e
      → con_data_size < fuel
      → Returns e (sync_q ret fuel w)
  unfolding sync_q
  sync_q-Returns ret fuel w h enough =
      bind (sock_sync_data-Returns brings fuel w.res.sockfd 1 _ w h (omega (arith, enough)))
        λ (rc, c) v h'. record { outcome = h' }

  pub connect_qp-Returns :
      (fuel : ℕ) (w : World) → w.env ≡ e → con_data_size < fuel → Returns e (connect_qp fuel w)
  unfolding connect_qp sync_q
  connect_qp-Returns fuel w h enough = bind (query_my_gid-Returns w h) λ (ret, gid) v h1.
      elim (Bool-cases (is_minus_one ret)) [
        | inl failed ↦ rw failed (record { outcome = h1 })
        | inr fine ↦ rw fine (
            bind (exchange-Returns brings fuel gid v h1 enough) λ ret' v2 h2.
              elim (Bool-cases (is_minus_one ret')) [
                | inl failed ↦ rw failed (record { outcome = h2 })
                | inr fine' ↦ rw fine' (
                    bind (bring_up-Returns v2 h2) λ ret'' v3 h3.
                      elim (Bool-cases (is_minus_one ret'')) [
                        | inl failed ↦ rw failed (record { outcome = h3 })
                        | inr fine'' ↦ rw fine'' (sync_q-Returns ret'' fuel v3 h3 enough)
                      ])
              ])
      ]
