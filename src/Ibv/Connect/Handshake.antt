-- ===== src/Ibv/Connect/Handshake.antt =====
-- What connect_qp of c/ibtest/ibv-rc.c asks of the hardware and tells the peer, in order.
use codelib.Base.{
  ℕ, ◌≡◌, refl, ◌∙◌, ap, true, if◌then◌else◌, Bool-cases, inl, inr, List, [], ◌∷◌, arith,
}
use codelib.Base.Int.{ℤ, pos, negsuc, minus_one, is_minus_one, is_zero}
use codelib.Ibv.World.{Env, ConData, World, Event, wrote, Cmd, pure, ask, ◌>>=◌}
use codelib.Ibv.Owned.{Post, bind, mono_both}
use codelib.Ibv.Sock.{sock_sync_data}
use codelib.Ibv.Sock.Told.{Tells, sock_sync_data-Tells}
use codelib.Ibv.Connect.{
  bring_up, client_receive, post_receive, modify_qp_to_init, modify_qp_to_rtr, modify_qp_to_rts,
  connect_qp,
}
use codelib.Ibv.Connect.Order.{moves}
use codelib.Ibv.Connect.Peer.{PeerSends, my_gid, exchanged, query_my_gid_lem, from_exchange}

moves_same : (w v : World) → Tells w.log w v → moves v ≡ moves w
unfolding moves
moves_same w v t = λ i.
    moves (record w {
      log = t.told i;
      res = t.same_res i;
      env = t.same_env i;
      config = t.same_config i;
    })

not_both : (x : ℤ) → is_zero x ≡ true → is_minus_one x ≡ true → ⊥
not_both (pos n) z m = ground arith
not_both (negsuc n) z m = ground arith

-- connect_qp from bring_up on.
last_part : ℕ → Cmd ℤ
last_part fuel = do
  ret ← bring_up
  if is_minus_one ret then pure ret else do
    fd ← ask λ w. w.res.sockfd
    (rc, c) ← sock_sync_data fuel fd 1 (b'Q' ∷ [])
    pure (if is_zero rc then ret else minus_one)

bring_up-Tells :
    (w : World) → Post (λ ret v. is_zero ret ≡ true → Tells (moves w) w v) (λ _. Unit) (bring_up w)
unfolding bring_up moves modify_qp_to_init modify_qp_to_rtr modify_qp_to_rts client_receive
    post_receive
bring_up-Tells w = ground arith

-- Two stretches, one after the other.
pub in_turn :
    {log log' : List Event} {w v u : World} → Tells log w v → Tells log' v u → Tells log' w u
in_turn t s = record {
  told = s.told;
  same_res = s.same_res ∙ t.same_res;
  same_env = s.same_env ∙ t.same_env;
  same_config = s.same_config ∙ t.same_config;
}

-- What a connect_qp that returns 0 has told, of its gid and the peer's data.
abbrev pub Joined : ConData → World → World → Type 0
Joined d w v =
    Tells (wrote (b'Q' ∷ []) ∷ moves (exchanged w (my_gid w) d)) (exchanged w (my_gid w) d) v

after_exchange :
    (fuel : ℕ) (w u : World) (d : ConData)
    → Tells (exchanged w (my_gid w) d).log (exchanged w (my_gid w) d) u
    → Post (λ ret v. is_zero ret ≡ true → Joined d w v) (λ _. Unit) (last_part fuel u)
unfolding last_part
after_exchange fuel w u d x = bind (bring_up-Tells u) λ ret u' moved.
    elim (Bool-cases (is_minus_one ret)) [
      | inl failed ↦ rw failed (record { outcome = λ z. absurd (not_both ret z failed) })
      | inr fine ↦ rw fine (
          bind (sock_sync_data-Tells fuel u'.res.sockfd 1 (b'Q' ∷ []) u') λ (rc, c) u'' q.
            elim (Bool-cases (is_zero rc)) [
              | inl ok ↦ rw ok (record {
                outcome = λ z.
                    let m = moved z in
                    let all = in_turn x (in_turn m q) in
                    record {
                      same_res = all.same_res;
                      same_env = all.same_env;
                      same_config = all.same_config;
                      told =
                          all.told
                          ∙ ap (λ log. wrote (b'Q' ∷ []) ∷ log)
                              (m.told ∙ moves_same (exchanged w (my_gid w) d) u x);
                    };
              })
              | inr bad ↦ rw bad (record { outcome = λ z. absurd (not_both minus_one z refl) })
            ])
    ]

pub connect_qp-Joined :
    {f : Env} {d : ConData} (fuel : ℕ) (w : World)
    → PeerSends f d fuel w
    → Post (λ ret v. is_zero ret ≡ true → Joined d w v) (λ _. Unit) (connect_qp fuel w)
unfolding connect_qp last_part
connect_qp-Joined {d = d} fuel w h = bind (query_my_gid_lem w) λ (ret, gid) v (eg, ev).
    elim (Bool-cases (is_minus_one ret)) [
      | inl failed ↦ rw failed (record { outcome = λ z. absurd (not_both ret z failed) })
      | inr fine ↦ rw fine (
          bind (mono_both (from_exchange h eg ev) (λ _ u x. x) λ u never. absurd never) λ ret' u x.
            elim (Bool-cases (is_minus_one ret')) [
              | inl failed ↦ rw failed (record { outcome = λ z. absurd (not_both ret' z failed) })
              | inr fine' ↦ rw fine' (after_exchange fuel w u d (x fine'))
            ])
    ]
