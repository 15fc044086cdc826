-- ===== src/Audio/Closing.antt =====
-- What the player of c/cl_ca/audio.c gives back when its queue has stopped.
use codelib.Base.{
  ℕ, zero, suc, ◌≡◌, ◌≢◌, refl, ◌∙◌, sym, ap, subst, true, false, List, [], ◌∷◌, ◌++◌, ◌⊎◌, inl,
  arith, replicate,
}
use codelib.Audio.{
  Answers, Player, Ref, null, main, looping, buffer_callback, property_listener, run_loop, Call,
  buffer_done, property, handle, fill_buffers, fill_buffer, free_buffers,
}
use codelib.Audio.Playing.{opened, main-opened, filled, property_listener-filled}

-- What a callback leaves alone.
record Kept (s t : Player) : Type 0 where
  pub live_kept : t.live ≡ s.live
  pub buffers_kept : t.buffers ≡ s.buffers
  pub file_kept : t.audio_file ≡ s.audio_file
  pub closes_kept : t.closes ≡ s.closes
  pub loop_stops_kept : t.loop_stops ≡ s.loop_stops
  pub allocated_kept : t.allocated ≡ s.allocated

buffer_callback-Kept : (a : Answers) (s : Player) → Kept s (buffer_callback a s)
unfolding buffer_callback
buffer_callback-Kept a s = ground arith

callbacks-Kept :
    (a : Answers) (n : ℕ) (s : Player) → Kept s (run_loop a (replicate n buffer_done) s)
unfolding run_loop
callbacks-Kept a zero s = ground arith
callbacks-Kept a (suc n) s =
    ground (arith, buffer_callback-Kept a s, callbacks-Kept a n (buffer_callback a s))

run_loop-append :
    (a : Answers) (cs ds : List Call) (s : Player)
    → run_loop a (cs ++ ds) s ≡ run_loop a ds (run_loop a cs s)
unfolding run_loop
run_loop-append a [] ds s = refl
run_loop-append a (c ∷ cs) ds s = run_loop-append a cs ds (handle a c s)

-- Stopping with three different buffers in the structure, which are the newest three.
stop_lem :
    (a : Answers) (s : Player) (p q r : Ref) (old : List Ref)
    → s.audio_file ≢ null
    → s.live ≡ r ∷ q ∷ p ∷ old
    → (s.buffers 0 ≡ p) × (s.buffers 1 ≡ q) × (s.buffers 2 ≡ r)
    → (p ≢ q) × (p ≢ r) × (q ≢ r)
    → ((property_listener a true false s).live ≡ old)
      × ((property_listener a true false s).closes ≡ suc s.closes)
      × ((property_listener a true false s).loop_stops ≡ suc s.loop_stops)
      × ((property_listener a true false s).audio_file ≡ null)
unfolding property_listener free_buffers
stop_lem a s p q r old f l (b0, b1, b2) (d1, d2, d3) = ground (arith, l, b0, b1, b2)

abbrev Leaks : Answers → Player → Type 0
Leaks a t =
    (t.live ≡ a.allocate 2 ∷ a.allocate 1 ∷ a.allocate 0 ∷ [])
    × (t.closes ≡ 1)
    × (t.loop_stops ≡ 1)
    × (t.audio_file ≡ null)

-- The player once the listener has filled its buffers.
abbrev started : Answers → Player
started a = filled a 2 (filled a 1 (filled a 0 (record (opened a) { m_current_packet = 0 })))

started_stop :
    (a : Answers) (s : Player)
    → ((i j : ℕ) → a.allocate i ≡ a.allocate j → i ≡ j)
    → a.open_url.1 ≢ null
    → Kept (started a) s
    → Leaks a (property_listener a true false s)
started_stop a s inj f k =
    let (l, c, r, n) =
      stop_lem a s (a.allocate 3) (a.allocate 4) (a.allocate 5)
        (a.allocate 2 ∷ a.allocate 1 ∷ a.allocate 0 ∷ []) (λ e. f (sym k.file_kept ∙ e)) k.live_kept
        (ap (λ b. b 0) k.buffers_kept, ap (λ b. b 1) k.buffers_kept, ap (λ b. b 2) k.buffers_kept)
        (
          (λ e. omega (arith, inj 3 4 e)),
          (λ e. omega (arith, inj 3 5 e)),
          (λ e. omega (arith, inj 4 5 e)),
        ) in
    (l, c ∙ ap suc k.closes_kept, r ∙ ap suc k.loop_stops_kept, n)

-- After main the queue starts, any number of buffers comes back, and the queue stops. Then the file
-- is closed, once, and the run loop is told to stop, once; but the three buffers that main has
-- allocated are still allocated, since the listener has put three others into the structure and
-- frees only those. The frameworks are assumed to return different buffers.
pub run_loop_leaks :
    (a : Answers) (n : ℕ) (s : Player)
    → main a ≡ looping s
    → a.open_url.1 ≢ null
    → ((i j : ℕ) → a.allocate i ≡ a.allocate j → i ≡ j)
    → let t =
        run_loop a (property true true ∷ replicate n buffer_done ++ property true false ∷ []) s in
      (t.live ≡ a.allocate 2 ∷ a.allocate 1 ∷ a.allocate 0 ∷ [])
      × (t.closes ≡ 1)
      × (t.loop_stops ≡ 1)
      × (t.audio_file ≡ null)
unfolding run_loop
run_loop_leaks a n s e f inj =
    subst (Leaks a)
      (sym (
        ap (run_loop a (replicate n buffer_done ++ property true false ∷ [])) (
          ap (property_listener a true true) (main-opened a s e)
          ∙ property_listener-filled a (opened a) f)
        ∙ run_loop-append a (replicate n buffer_done) (property true false ∷ []) (started a)))
      (started_stop a _ inj f (callbacks-Kept a n (started a)))

-- The file is open and was not closed, or was closed once; the run loop is told to stop with it.
record ClosesOnce (s : Player) : Type 0 where
  pub once : ((s.audio_file ≢ null) × (s.closes ≡ 0)) ⊎ ((s.audio_file ≡ null) × (s.closes ≡ 1))
  pub with_loop : s.loop_stops ≡ s.closes
  pub while_open : (s.misuse ≡ false) ⊎ (s.audio_file ≡ null)

fill_buffers-ClosesOnce :
    (a : Answers) (n i : ℕ) (s : Player) → ClosesOnce s → ClosesOnce (fill_buffers a n i s)
unfolding fill_buffers fill_buffer
fill_buffers-ClosesOnce a zero i s h = h
fill_buffers-ClosesOnce a (suc n) i s h = fill_buffers-ClosesOnce a n (suc i) _ (ground (arith, h))

handle-ClosesOnce : (a : Answers) (c : Call) (s : Player) → ClosesOnce s → ClosesOnce (handle a c s)
unfolding property_listener free_buffers buffer_callback
handle-ClosesOnce a buffer_done s h = ground (arith, h)
handle-ClosesOnce a (property false running) s h = h
handle-ClosesOnce a (property true true) s h = fill_buffers-ClosesOnce a 3 0 _ (ground (arith, h))
handle-ClosesOnce a (property true false) s h = ground (arith, h)

run_loop-ClosesOnce :
    (a : Answers) (cs : List Call) (s : Player) → ClosesOnce s → ClosesOnce (run_loop a cs s)
unfolding run_loop
run_loop-ClosesOnce a [] s h = h
run_loop-ClosesOnce a (c ∷ cs) s h = run_loop-ClosesOnce a cs _ (handle-ClosesOnce a c s h)

-- Whatever calls the run loop makes of the two callbacks, in whatever order, the file is closed at
-- most once, exactly if the structure no longer has it, and the run loop is told to stop as often. As
-- long as the structure has the file, no file was read or closed that is not open.
pub run_loop_closes :
    (a : Answers) (cs : List Call) (s : Player)
    → main a ≡ looping s
    → a.open_url.1 ≢ null
    → let t = run_loop a cs s in
      (((t.audio_file ≢ null) × (t.closes ≡ 0)) ⊎ ((t.audio_file ≡ null) × (t.closes ≡ 1)))
      × (t.loop_stops ≡ t.closes)
      × ((t.misuse ≡ false) ⊎ (t.audio_file ≡ null))
run_loop_closes a cs s e f =
    let h = run_loop-ClosesOnce a cs s (
      rw (main-opened a s e)
        (record { once = inl (f, refl); with_loop = refl; while_open = inl refl })) in
    (h.once, h.with_loop, h.while_open)
