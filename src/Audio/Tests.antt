-- ===== src/Audio/Tests.antt =====
-- A file of ten packets, played by c/cl_ca/audio.c in reads of four, and the theorems there.
use codelib.Base.{
  ℕ, ◌+◌, ◌*◌, ◌-◌, ◌≤◌, ◌≡◌, ◌≢◌, refl, true, false, [], ◌∷◌, ◌++◌, ◌⊎◌, ltb, if◌then◌else◌, arith,
  replicate,
}
use codelib.Base.Int.{pos}
use codelib.Audio.{
  Answers, null, main, looping, property, buffer_done, run_loop, allocate_buffers,
  property_listener, fill_buffers, fill_buffer, buffer_callback, buffer_size_in_samples,
}
use codelib.Audio.Playing.{stretch, GoesOn, opened, run_loop_replays}
use codelib.Audio.Closing.{run_loop_leaks, run_loop_closes}

abbrev packets_at : ℕ → ℕ
packets_at k = if ltb k 7 then 4 else 10 - k

abbrev frameworks : Answers
frameworks = record {
  open_url = (pos 0, 7);
  get_property = pos 0;
  new_output = (pos 0, 9);
  allocate = λ i. 100 + i;
  read = λ f k. record { bytes = packets_at k * 4; packets = packets_at k; contents = k ∷ [] };
}

starts : main frameworks ≡ looping (opened frameworks)
unfolding main allocate_buffers
starts = refl

-- What is heard: the file's packets from 0, 4 and 8, and then from 0 and 4 again.
plays :
    (run_loop frameworks (property true true ∷ replicate 2 buffer_done) (opened frameworks)).played
    ≡ (0 ∷ []) ∷ (4 ∷ []) ∷ (8 ∷ []) ∷ (0 ∷ []) ∷ (4 ∷ []) ∷ []
unfolding run_loop property_listener fill_buffers fill_buffer buffer_callback
plays = refl

room : (k : ℕ) → packets_at k ≤ buffer_size_in_samples
room k = ground arith

run_loop_replays_example :
    (run_loop frameworks (property true true ∷ replicate 2 buffer_done) (opened frameworks)).played
    ≡ stretch (frameworks.read 7) 3 0 ++ stretch (frameworks.read 7) 2 0
unfolding GoesOn
run_loop_replays_example =
    run_loop_replays frameworks 2 (opened frameworks) starts (λ h. absurd (omega (arith, h))) room
      ((λ h. absurd (omega (arith, h))), ((λ h. absurd (omega (arith, h))), tt))

three_left :
    let t =
      run_loop frameworks
        (property true true ∷ replicate 2 buffer_done ++ property true false ∷ [])
        (opened frameworks) in
    (t.live ≡ 102 ∷ 101 ∷ 100 ∷ []) × (t.closes ≡ 1) × (t.loop_stops ≡ 1) × (t.audio_file ≡ null)
three_left =
    run_loop_leaks frameworks 2 (opened frameworks) starts (λ h. absurd (omega (arith, h)))
      (λ i j e. omega (arith, e))

run_loop_closes_example :
    let t =
      run_loop frameworks
        (property true false ∷ buffer_done ∷ property true false ∷ [])
        (opened frameworks) in
    (((t.audio_file ≢ null) × (t.closes ≡ 0)) ⊎ ((t.audio_file ≡ null) × (t.closes ≡ 1)))
    × (t.loop_stops ≡ t.closes)
    × ((t.misuse ≡ false) ⊎ (t.audio_file ≡ null))
run_loop_closes_example =
    run_loop_closes frameworks (property true false ∷ buffer_done ∷ property true false ∷ [])
      (opened frameworks) starts (λ h. absurd (omega (arith, h)))
