-- ===== src/Audio/Playing.antt =====
-- Which packets of its file the player of c/cl_ca/audio.c enqueues.
use codelib.Base.{
  ℕ, zero, suc, ◌+◌, ◌%◌, ◌^◌, ◌≤◌, ◌≡◌, ◌≢◌, refl, ◌∙◌, sym, ap, true, false, List, [], ◌∷◌, ◌++◌,
  arith, replicate,
}
use mathlib.Core.List.{append_assoc, append-nil}
use codelib.Audio.{
  Answers, Chunk, Player, null, main, looping, buffer_callback, property_listener, fill_buffers,
  fill_buffer, run_loop, buffer_done, property, allocate_buffer, enqueue, initial,
  buffer_size_in_samples, allocate_buffers,
}

-- The data of n reads of the file, each from where the one before it ended, as 32 bits.
unfoldable pub stretch : (ℕ → Chunk) → ℕ → ℕ → List (List ℕ)
stretch read zero start = []
stretch read (suc n) start =
    (read start).contents ∷ stretch read n ((start + (read start).packets) % 2 ^ 32)

-- None of these reads is at the end of the file.
unfoldable pub GoesOn : (ℕ → Chunk) → ℕ → ℕ → Type 0
GoesOn read zero start = Unit {0}
GoesOn read (suc n) start =
    ((read start).bytes ≢ 0) × GoesOn read n ((start + (read start).packets) % 2 ^ 32)

-- A callback that finds data in an open file.
buffer_callback_lem :
    (a : Answers) (s : Player)
    → s.done ≡ false
    → s.audio_file ≢ null
    → (a.read s.audio_file s.current_packet).bytes ≢ 0
    → buffer_callback a s ≡ record s {
      played = s.played ++ (a.read s.audio_file s.current_packet).contents ∷ [];
      current_packet = (s.current_packet + (a.read s.audio_file s.current_packet).packets) % 2 ^ 32;
    }
unfolding buffer_callback
buffer_callback_lem a s d f g = ground (arith, f, g)

run_loop-callbacks :
    (a : Answers) (n : ℕ) (s : Player)
    → s.done ≡ false
    → s.audio_file ≢ null
    → GoesOn (a.read s.audio_file) n s.current_packet
    → (run_loop a (replicate n buffer_done) s).played
      ≡ s.played ++ stretch (a.read s.audio_file) n s.current_packet
unfolding run_loop stretch GoesOn
run_loop-callbacks a zero s d f g = sym (append-nil s.played)
run_loop-callbacks a (suc n) s d f g =
    ap (λ t. (run_loop a (replicate n buffer_done) t).played) (buffer_callback_lem a s d f g.0)
    ∙ run_loop-callbacks a n _ d f g.1
    ∙ append_assoc s.played ((a.read s.audio_file s.current_packet).contents ∷ []) _

-- A round of the listener's loop with an open file.
abbrev pub filled : Answers → ℕ → Player → Player
filled a i s =
    enqueue (a.read s.audio_file s.m_current_packet).contents (record (allocate_buffer a i s) {
      m_current_packet = s.m_current_packet + (a.read s.audio_file s.m_current_packet).packets;
    })

fill_buffer_lem :
    (a : Answers) (i : ℕ) (s : Player) → s.audio_file ≢ null → fill_buffer a i s ≡ filled a i s
unfolding fill_buffer
fill_buffer_lem a i s f = ground (arith, f)

pub property_listener-filled :
    (a : Answers) (s : Player)
    → s.audio_file ≢ null
    → property_listener a true true s
      ≡ filled a 2 (filled a 1 (filled a 0 (record s { m_current_packet = 0 })))
unfolding property_listener fill_buffers
property_listener-filled a s f =
    ap (λ t. fill_buffer a 2 (fill_buffer a 1 t))
      (fill_buffer_lem a 0 (record s { m_current_packet = 0 }) f)
    ∙ ap (fill_buffer a 2) (fill_buffer_lem a 1 _ f)
    ∙ fill_buffer_lem a 2 _ f

-- The player that main leaves to the run loop.
abbrev pub opened : Answers → Player
opened a = allocate_buffer a 2 (
    allocate_buffer a 1
      (allocate_buffer a 0 (record initial { audio_file = a.open_url.1; queue = a.new_output.1 })))

pub main-opened : (a : Answers) (s : Player) → main a ≡ looping s → s ≡ opened a
unfolding main allocate_buffers
main-opened a s e = ground (arith, e)

first_three :
    (read : ℕ → Chunk)
    → ((k : ℕ) → (read k).packets ≤ buffer_size_in_samples)
    → (read 0).contents
        ∷ (read (0 + (read 0).packets)).contents
        ∷ (read (0 + (read 0).packets + (read (0 + (read 0).packets)).packets)).contents
        ∷ []
      ≡ stretch read 3 0
unfolding stretch
first_three read room =
    λ i. (read 0).contents ∷ (read (e1 i)).contents ∷ (read (e2 i)).contents ∷ []
  where
    e1 : 0 + (read 0).packets ≡ (0 + (read 0).packets) % 2 ^ 32
    e1 = omega (arith, room 0)

    e2 :
        0 + (read 0).packets + (read (0 + (read 0).packets)).packets
        ≡ ((0 + (read 0).packets) % 2 ^ 32 + (read ((0 + (read 0).packets) % 2 ^ 32)).packets)
          % 2 ^ 32
    e2 =
        (λ i. e1 i + (read (e1 i)).packets)
        ∙ omega (arith, room 0, room ((0 + (read 0).packets) % 2 ^ 32))

-- After main the queue starts, and the listener fills its three buffers; then any number of
-- buffers comes back, with no read at the end of the file. What is played is then the first three
-- stretches of the file, and after them the file from its beginning again: the callback's reads go
-- by the counter `currentPacket`, which the listener's have not moved. A read is assumed to take no
-- more packets than the room it is given.
pub run_loop_replays :
    (a : Answers) (n : ℕ) (s : Player)
    → main a ≡ looping s
    → a.open_url.1 ≢ null
    → ((k : ℕ) → (a.read a.open_url.1 k).packets ≤ buffer_size_in_samples)
    → GoesOn (a.read a.open_url.1) n 0
    → (run_loop a (property true true ∷ replicate n buffer_done) s).played
      ≡ stretch (a.read a.open_url.1) 3 0 ++ stretch (a.read a.open_url.1) n 0
unfolding run_loop
run_loop_replays a n s e f room g =
    ap (λ t. (run_loop a (replicate n buffer_done) t).played)
      (ap (property_listener a true true) (main-opened a s e)
        ∙ property_listener-filled a (opened a) f)
    ∙ run_loop-callbacks a n _ refl f g
    ∙ ap (λ l. l ++ stretch (a.read a.open_url.1) n 0) (first_three (a.read a.open_url.1) room)
