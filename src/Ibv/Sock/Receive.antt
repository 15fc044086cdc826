-- ===== src/Ibv/Sock/Receive.antt =====
-- What sock_sync_data receives: the peer's bytes, in whatever pieces they come.
use mathlib.Core.List.{flatten, append-nil, append_assoc}
use codelib.Base.{
  ℕ, zero, suc, ◌+◌, ◌≤◌, ◌<◌, ◌≡◌, refl, ◌∙◌, sym, ap, subst, true, false, List, [], ◌∷◌, ◌++◌,
  arith, Bool-cases, inl, inr, ltb, lt→ltb, le→not_ltb, not_ltb→le, length, length-append,
}
use codelib.Base.Int.{ℤ, pos, negsuc}
use codelib.Ibv.World.{Env, World}
use codelib.Ibv.Owned.{Post, bind, mono, weaken_stop, IsOpen}
use codelib.Ibv.Sock.{recv_some, recv_loop, sock_sync_data, less_than}

-- From call t on each `read` delivers the next of the pieces.
abbrev pub Delivers : Env → ℕ → List (List ℕ) → Type 0
Delivers e t [] = Unit {0}
Delivers e t (c ∷ cs) = (e.read t ≡ (pos (length c), c)) × Delivers e (suc t) cs

-- A read that delivers a piece for which there is room.
recv_some_lem :
    (fd : ℤ) (size : ℕ) (got c : List ℕ) (w : World)
    → IsOpen fd w
    → w.env.read w.tick ≡ (pos (length c), c)
    → length (got ++ c) ≤ size
    → Post
        (λ (tmp, filled) v.
          (tmp ≡ pos (length c))
          × (filled ≡ got ++ c)
          × (v.overrun ≡ w.overrun)
          × (v.env ≡ w.env)
          × (v.tick ≡ suc w.tick)
          × (v.live ≡ w.live))
        (λ _. ⊥)
        (recv_some fd size got w)
unfolding recv_some
recv_some_lem (pos fd) size got c w h e room =
    ground (arith, le→not_ltb size (length (got ++ c)) room)
recv_some_lem (negsuc n) size got c w h e room = absurd h

pub IsOpen-live : (fd : ℤ) (w v : World) → IsOpen fd w → v.live ≡ w.live → IsOpen fd v
IsOpen-live (pos n) w v h e = rw e h
IsOpen-live (negsuc n) w v h e = h

nil_of_length : (xs : List ℕ) → length xs ≡ 0 → xs ≡ []
nil_of_length [] h = refl
nil_of_length (x ∷ xs) h = absurd (omega arith)

recv_loop_lem :
    (cs : List (List ℕ)) (fuel : ℕ) (fd : ℤ) (size n : ℕ) (got : List ℕ) (w : World)
    → IsOpen fd w
    → Delivers w.env w.tick cs
    → length cs < fuel
    → n ≡ length got
    → length (got ++ flatten cs) ≡ size
    → Post
        (λ (rc, filled) v. (rc ≡ pos 0) × (filled ≡ got ++ flatten cs) × (v.overrun ≡ w.overrun))
        (λ _. ⊥)
        (recv_loop fuel fd size n got w)
unfolding recv_loop flatten
recv_loop_lem cs zero fd size n got w h d enough e full = absurd (omega arith)
recv_loop_lem [] (suc fuel) fd size n got w h d enough e full =
    rw (le→not_ltb n size (omega (arith, length-append got [])))
      (record { outcome = (refl, sym (append-nil got), refl) })
recv_loop_lem (c ∷ cs) (suc fuel) fd size n got w h d enough e full =
    elim (Bool-cases (ltb n size)) [
      | inr done ↦
          rw
            (
              done,
              nil_of_length (flatten (c ∷ cs))
                  (omega (arith, not_ltb→le n size done, length-append got (flatten (c ∷ cs)))),
            )
            (record { outcome = (refl, sym (append-nil got), refl) })
      | inl more ↦ rw more (
          bind (recv_some_lem fd size got c w h d.0 room)
            λ (tmp, filled) v (e1, e2, e3, e4, e5, e6).
              rw (e1, e2)
                (mono
                  (recv_loop_lem cs fuel fd size (n + length c) (got ++ c) v
                    (IsOpen-live fd w v h e6)
                    (subst (λ t. Delivers v.env t cs) (sym e5)
                      (subst (λ e. Delivers e (suc w.tick) cs) (sym e4) d.1))
                    (omega arith) (omega (arith, length-append got c))
                    (ap length (append_assoc got c (flatten cs)) ∙ full))
                  λ (rc, filled') u (f1, f2, f3).
                    (f1, f2 ∙ append_assoc got c (flatten cs), f3 ∙ e3)))
    ]
  where
    room : length (got ++ c) ≤ size
    room = omega (
      arith,
      length-append got (c ++ flatten cs),
      length-append c (flatten cs),
      length-append got c,
    )

-- If the other side's bytes come in any pieces, `xfer_size` of them in all, and the write takes
-- what it is given, then `sock_sync_data` returns 0 with exactly those bytes in order, and stores
-- nothing past the end of `remote_data`.
pub sock_sync_data-Delivers :
    (cs : List (List ℕ)) (fuel : ℕ) (fd : ℤ) (size : ℕ) (local : List ℕ) (w : World)
    → IsOpen fd w
    → less_than (w.env.write w.tick) size ≡ false
    → Delivers w.env (suc w.tick) cs
    → length cs < fuel
    → length (flatten cs) ≡ size
    → Post
        (λ (rc, filled) v. (rc ≡ pos 0) × (filled ≡ flatten cs) × (v.overrun ≡ w.overrun))
        (λ _. ⊥)
        (sock_sync_data fuel fd size local w)
unfolding sock_sync_data
sock_sync_data-Delivers cs fuel (pos fd) size local w h sent d enough full =
    rw sent (mono (recv_loop_lem cs fuel (pos fd) size 0 [] _ h d enough refl full) λ r v p. p)
sock_sync_data-Delivers cs fuel (negsuc n) size local w h sent d enough full = absurd h

-- A read at the end of the stream.
recv_some_closed :
    (fd : ℤ) (size : ℕ) (got : List ℕ) (w : World)
    → ((t : ℕ) → w.env.read t ≡ (pos 0, []))
    → Post (λ (tmp, filled) v. (tmp ≡ pos 0) × (v.env ≡ w.env)) (λ _. ⊥) (recv_some fd size got w)
unfolding recv_some
recv_some_closed (pos fd) size got w closed = ground (arith, closed w.tick)
recv_some_closed (negsuc fd) size got w closed = ground (arith, closed w.tick)

recv_loop_waits :
    (fuel : ℕ) (fd : ℤ) (size n : ℕ) (got : List ℕ) (w : World)
    → ((t : ℕ) → w.env.read t ≡ (pos 0, []))
    → n < size
    → Post (λ _ _. ⊥) (λ _. Unit) (recv_loop fuel fd size n got w)
unfolding recv_loop
recv_loop_waits zero fd size n got w closed more = record { outcome = tt }
recv_loop_waits (suc fuel) fd size n got w closed more = rw (lt→ltb n size more) (
    bind (weaken_stop (recv_some_closed fd size got w closed)) λ (tmp, filled) v (e1, e2). rw e1 (
      recv_loop_waits fuel fd size (n + 0) filled v
        (subst (λ e. (t : ℕ) → e.read t ≡ (pos 0, [])) (sym e2) closed) (omega arith)))

-- Once the other side has closed the connection, so that every `read` returns 0, and bytes are
-- still missing, `sock_sync_data` never returns, whatever the number of rounds that it is given:
-- it takes -1 and not 0 for the end of the stream.
pub sock_sync_data_waits :
    (fuel : ℕ) (fd : ℤ) (size : ℕ) (local : List ℕ) (w : World)
    → IsOpen fd w
    → less_than (w.env.write w.tick) size ≡ false
    → ((t : ℕ) → w.env.read t ≡ (pos 0, []))
    → 0 < size
    → Post (λ _ _. ⊥) (λ _. Unit) (sock_sync_data fuel fd size local w)
unfolding sock_sync_data
sock_sync_data_waits fuel (pos fd) size local w h sent closed more =
    rw sent (recv_loop_waits fuel (pos fd) size 0 [] _ closed more)
sock_sync_data_waits fuel (negsuc n) size local w h sent closed more = absurd h

-- A read that delivers more than there is room for.
recv_some_overruns :
    (fd : ℤ) (size : ℕ) (got c : List ℕ) (w : World)
    → w.env.read w.tick ≡ (pos (length c), c)
    → size < length (got ++ c)
    → Post
        (λ (tmp, filled) v. (tmp ≡ pos (length c)) × (filled ≡ got ++ c) × (v.overrun ≡ true))
        (λ _. ⊥)
        (recv_some fd size got w)
unfolding recv_some
recv_some_overruns (pos fd) size got c w e room =
    ground (arith, lt→ltb size (length (got ++ c)) room)
recv_some_overruns (negsuc fd) size got c w e room =
    ground (arith, lt→ltb size (length (got ++ c)) room)

-- Each `read` is asked for `xfer_size` bytes again. So if a first piece falls short of them and
-- the second brings more than the rest, as where the other side's next message follows on it, then
-- `sock_sync_data` stores past the end of `remote_data`, and returns 0.
pub sock_sync_data_overruns :
    (c d : List ℕ) (fuel : ℕ) (fd : ℤ) (size : ℕ) (local : List ℕ) (w : World)
    → IsOpen fd w
    → less_than (w.env.write w.tick) size ≡ false
    → Delivers w.env (suc w.tick) (c ∷ d ∷ [])
    → length c < size
    → size < length c + length d
    → Post
        (λ (rc, filled) v. (rc ≡ pos 0) × (filled ≡ c ++ d) × (v.overrun ≡ true))
        (λ _. ⊥)
        (sock_sync_data (suc (suc (suc fuel))) fd size local w)
unfolding sock_sync_data recv_loop
sock_sync_data_overruns c d fuel (negsuc n) size local w h sent got short long = absurd h
sock_sync_data_overruns c d fuel (pos fd) size local w h sent got short long =
    rw (sent, lt→ltb 0 size (omega arith))
      (bind (recv_some_lem (pos fd) size [] c _ h got.0 (omega arith))
        λ (tmp, filled) v (e1, e2, e3, e4, e5, e6).
          rw (e1, e2, lt→ltb (0 + length c) size (omega arith))
            (bind
              (recv_some_overruns (pos fd) size c d v (rw (e4, e5) got.1.0)
                (omega (arith, length-append c d)))
              λ (tmp', filled') u (f1, f2, f3).
                rw (f1, f2, le→not_ltb (0 + length c + length d) size (omega arith))
                  (record { outcome = (refl, refl, f3) })))
