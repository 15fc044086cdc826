-- ===== src/Ibv/Sock/Pair/Calls.antt =====
-- A call of sock_sync_data, as Ibv/Sock has it, is a run of steps of a side.
use mathlib.Core.List.{flatten}
use codelib.Base.{
  ℕ, zero, suc, ◌+◌, ◌≤◌, ◌<◌, ◌≡◌, refl, sym, ap, subst, ◌∙◌, Bool, false, ◌||◌, Bool-cases, inl,
  inr, List, [], ◌∷◌, ◌++◌, ltb, le→not_ltb, ltb→lt, not_ltb→le, arith, length, length-append, take,
  drop,
}
use codelib.Base.Int.{ℤ, pos, negsuc}
use codelib.Ibv.World.{World, wrote}
use codelib.Ibv.Owned.{Post, bind, mono, IsOpen}
use codelib.Ibv.Sock.{recv_some, recv_loop, sock_sync_data, less_than}
use codelib.Base.Lists.{take_all}
use codelib.Ibv.Sock.Receive.{Delivers, IsOpen-live}
use codelib.Ibv.Sock.Pair.{sending, receiving, Side, SideStep, write, read, return}

-- A read that delivers a piece, whether there is room for it or not.
recv_some_piece :
    (fd : ℤ) (size : ℕ) (got c : List ℕ) (w : World)
    → IsOpen fd w
    → w.env.read w.tick ≡ (pos (length c), c)
    → Post
        (λ (tmp, filled) v.
          (tmp ≡ pos (length c))
          × (filled ≡ got ++ c)
          × (v.overrun ≡ (w.overrun || ltb size (length (got ++ c))))
          × (v.env ≡ w.env)
          × (v.tick ≡ suc w.tick)
          × (v.live ≡ w.live)
          × (v.log ≡ w.log))
        (λ _. ⊥)
        (recv_some fd size got w)
unfolding recv_some
recv_some_piece (pos fd) size got c w h e =
    rw e (record { outcome = (refl, refl, refl, refl, refl, refl, refl) })
recv_some_piece (negsuc n) size got c w h e = absurd h

-- The pieces are what reads of at most `size` bytes each give of the stream `o`, of which `taken` have
-- been read before.
abbrev pub Pieces : ℕ → List ℕ → ℕ → List (List ℕ) → Type 0
Pieces size o taken [] = Unit {0}
Pieces size o taken (c ∷ cs) =
    (0 < length c)
    × (length c ≤ size)
    × (taken + length c ≤ length o)
    × (c ≡ take (length c) (drop taken o))
    × Pieces size o (taken + length c) cs

module _ (calls : ℕ) (size : ℕ → ℕ) (d : ℕ → List ℕ) (o : List ℕ) where
  -- Any number of steps of a side.
  pub data SideRun : Side → Side → Type 0 where
    none : {s : Side} → SideRun s s
    then : {s t u : Side} → SideStep calls size d o s t → SideRun t u → SideRun s u

  -- A side that has returned from its call with these bytes, and has read so much in all.
  abbrev pub after_call : Side → List ℕ → ℕ → Bool → Side
  after_call s filled m b = record s {
    call = suc s.call;
    phase = sending;
    returned = filled ∷ s.returned;
    taken = m;
    overrun = b;
  }

  -- What a run of the loop comes to for a side that is in it.
  abbrev Runs : Side → World → ℤ × List ℕ → World → Type 0
  Runs s w (rc, filled) v =
      (rc ≡ pos 0) × (v.log ≡ w.log) × ((m : ℕ) × SideRun s (after_call s filled m v.overrun))

  -- A read of the next piece, `c`.
  after_read : Side → ℕ → List ℕ → List ℕ → Side
  after_read s n got c = record s {
    phase = receiving (n + length c) (got ++ c);
    taken = s.taken + length c;
    overrun = s.overrun || ltb (size s.call) (n + length c);
  }

  read_piece :
      (s : Side) (n : ℕ) (got c : List ℕ)
      → s.phase ≡ receiving n got
      → n < size s.call
      → (0 < length c)
        × (length c ≤ size s.call)
        × (s.taken + length c ≤ length o)
        × (c ≡ take (length c) (drop s.taken o))
      → SideStep calls size d o s (after_read s n got c)
  unfolding after_read
  read_piece s n got c e lt (some, fits, there, next) =
      subst (SideStep calls size d o s)
        (λ i. record s {
          phase = receiving (n + length c) (got ++ sym next i);
          taken = s.taken + length c;
          overrun = s.overrun || ltb (size s.call) (n + length c);
        })
        (read n (length c) e lt some fits there)

  -- The loop is done.
  return_Runs :
      (s : Side) (w : World) (n : ℕ) (got : List ℕ)
      → s.phase ≡ receiving n got
      → size s.call ≤ n
      → w.overrun ≡ s.overrun
      → Runs s w (pos 0, got) w
  return_Runs s w n got e le same = (refl, refl, (s.taken, rw same (then (return n e le) none)))

  recv_loop-SideRun :
      (cs : List (List ℕ)) (fuel : ℕ) (fd : ℤ) (n : ℕ) (got : List ℕ) (w : World) (s : Side)
      → IsOpen fd w
      → Delivers w.env w.tick cs
      → Pieces (size s.call) o s.taken cs
      → length cs < fuel
      → s.phase ≡ receiving n got
      → n ≡ length got
      → size s.call ≤ n + length (flatten cs)
      → w.overrun ≡ s.overrun
      → Post (Runs s w) (λ _. ⊥) (recv_loop fuel fd (size s.call) n got w)
  unfolding recv_loop flatten after_read
  recv_loop-SideRun cs zero fd n got w s h del ps enough e len full same =
      absurd (omega (arith, enough))
  recv_loop-SideRun [] (suc fuel) fd n got w s h del ps enough e len full same =
      rw (le→not_ltb n (size s.call) (omega (arith, full)))
        (record { outcome = return_Runs s w n got e (omega (arith, full)) same })
  recv_loop-SideRun (c ∷ cs) (suc fuel) fd n got w s h del ps enough e len full same =
      elim (Bool-cases (ltb n (size s.call))) [
        | inr done ↦
            rw done
              (record { outcome = return_Runs s w n got e (not_ltb→le n (size s.call) done) same })
        | inl more ↦ rw more (
            bind (recv_some_piece fd (size s.call) got c w h del.0)
              λ (tmp, filled) v (e1, e2, e3, e4, e5, e6, e7).
                rw (e1, e2)
                  (mono
                    (recv_loop-SideRun cs fuel fd (n + length c) (got ++ c) v (after_read s n got c)
                      (IsOpen-live fd w v h e6)
                      (subst (λ t. Delivers v.env t cs) (sym e5)
                        (subst (λ e. Delivers e (suc w.tick) cs) (sym e4) del.1))
                      ps.4 (omega arith) refl (omega (arith, length-append got c))
                      (omega (arith, full, length-append c (flatten cs)))
                      (e3 ∙ rw (same, length-append got c, len) refl))
                    λ (rc, filled') u (f1, f2, (m, run)). (
                      f1,
                      f2 ∙ e7,
                      (
                        m,
                        then
                            (read_piece s n got c e (ltb→lt n (size s.call) more)
                              (ps.0, ps.1, ps.2, ps.3))
                            run,
                      ),
                    )))
      ]

  -- A call on an open socket that writes what it is given and to which the stream brings its bytes, in
  -- pieces of at most the size, also more than there is room for, returns 0, has told the peer its
  -- local_data, and is a run of the steps of a side: one write, reads, and the return with the bytes
  -- that the call put in remote_data. If the two agreed before on whether an array was overrun, they
  -- agree after it.
  pub sock_sync_data-SideRun :
      (cs : List (List ℕ)) (fuel : ℕ) (fd : ℤ) (w : World) (s : Side)
      → IsOpen fd w
      → less_than (w.env.write w.tick) (size s.call) ≡ false
      → Delivers w.env (suc w.tick) cs
      → Pieces (size s.call) o s.taken cs
      → size s.call ≤ length (flatten cs)
      → length cs < fuel
      → s.phase ≡ sending
      → s.call < calls
      → length (d s.call) ≡ size s.call
      → w.overrun ≡ s.overrun
      → Post
          (λ (rc, filled) v.
            (rc ≡ pos 0)
            × (v.log ≡ wrote (d s.call) ∷ w.log)
            × ((m : ℕ) × SideRun s
                  (after_call (record s { out = s.out ++ d s.call }) filled m v.overrun)))
          (λ _. ⊥)
          (sock_sync_data fuel fd (size s.call) (d s.call) w)
  unfolding sock_sync_data
  sock_sync_data-SideRun cs fuel (negsuc n) w s h sent del ps full enough e lt fits same = absurd h
  sock_sync_data-SideRun cs fuel (pos fd) w s h sent del ps full enough e lt fits same = rw sent (
      mono
        (recv_loop-SideRun cs fuel (pos fd) 0 [] _
          (record s { phase = receiving 0 []; out = s.out ++ d s.call }) h del ps enough refl refl
          (omega (arith, full)) same)
        λ (rc, filled) v (e1, e2, (m, run)). (
          e1,
          e2 ∙ ap (λ bs. wrote bs ∷ w.log) (take_all (d s.call) (size s.call) fits),
          (m, then (write e lt) run),
        ))
