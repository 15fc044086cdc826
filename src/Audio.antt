-- ===== src/Audio.antt =====
-- c/cl_ca/audio.c: the player's structure, its two callbacks and what main does before its run loop.
pub mod Playing
pub mod Closing
mod Tests
use codelib.Base.{
  ℕ, zero, suc, ◌+◌, ◌*◌, ◌%◌, ◌^◌, Bool, true, false, not, List, [], ◌∷◌, ◌++◌, ◌==◌,
  if◌then◌else◌,
}
use codelib.Base.Int.{ℤ, is_zero}

-- A reference to an object of the frameworks; 0 is NULL.
abbrev pub Ref : Type 0
Ref = ℕ

abbrev pub null : Ref
null = 0

-- What AudioFileReadPacketData answers: the bytes, the packets and the data.
pub record Chunk : Type 0 where
  pub bytes : ℕ
  pub packets : ℕ
  pub contents : List ℕ

-- What the frameworks answer. The statuses are 0 for noErr; `allocate` goes by the number of
-- buffers allocated before, `read` by the file and the first packet, for a room of
-- `buffer_size_in_samples` packets of 4 bytes.
pub record Answers : Type 0 where
  pub open_url : ℤ × Ref
  pub get_property : ℤ
  pub new_output : ℤ × Ref
  pub allocate : ℕ → Ref
  pub read : Ref → ℕ → Chunk

abbrev pub buffer_size_in_samples : ℕ
buffer_size_in_samples = 441

abbrev pub number_buffers : ℕ
number_buffers = 3

-- `struct myAQStruct` and the global `currentPacket`, with what the calls of the frameworks have done.
pub record Player : Type 0 where
  pub audio_file : Ref
  pub queue : Ref
  pub buffers : ℕ → Ref
  pub m_current_packet : ℕ
  pub done : Bool
  pub current_packet : ℕ
  -- the buffers allocated so far, and those of them that are not freed, newest first
  pub allocated : ℕ
  pub live : List Ref
  -- the data enqueued so far, oldest first
  pub played : List (List ℕ)
  -- how often AudioQueueStop, AudioFileClose and CFRunLoopStop were called
  pub stops : ℕ
  pub closes : ℕ
  pub loop_stops : ℕ
  -- a file was read or closed that is not open
  pub misuse : Bool

-- The static `myInfo` and `currentPacket` at the start.
abbrev pub initial : Player
initial = record {
  audio_file = null;
  queue = null;
  buffers = λ i. null;
  m_current_packet = 0;
  done = false;
  current_packet = 0;
  allocated = 0;
  live = [];
  played = [];
  stops = 0;
  closes = 0;
  loop_stops = 0;
  misuse = false;
}

abbrev pub set_at : (ℕ → Ref) → ℕ → Ref → ℕ → Ref
set_at f i p j = if j == i then p else f j

abbrev pub remove : Ref → List Ref → List Ref
remove h [] = []
remove h (x ∷ xs) = let rest = remove h xs in if h == x then xs else x ∷ rest

abbrev pub use_file : Player → Player
use_file s = if s.audio_file == null then record s { misuse = true } else s

-- `AudioQueueAllocateBuffer(myInfo->mQueue, …, &myInfo->mBuffers[i])`
abbrev pub allocate_buffer : Answers → ℕ → Player → Player
allocate_buffer a i s = record s {
  allocated = suc s.allocated;
  live = a.allocate s.allocated ∷ s.live;
  buffers = set_at s.buffers i (a.allocate s.allocated);
}

-- AudioQueueEnqueueBuffer, of a buffer with this data.
abbrev pub enqueue : List ℕ → Player → Player
enqueue contents s = record s { played = s.played ++ contents ∷ [] }

-- AQTestBufferCallback: the queue has played a buffer.
unfoldable pub buffer_callback : Answers → Player → Player
buffer_callback a s =
    if s.done
    then s
    else let c = a.read s.audio_file s.current_packet in
      let s1 = use_file s in
      let s2 = record s1 { current_packet = (s.current_packet + c.packets) % 2 ^ 32 } in
      if c.bytes == 0 then record s2 { stops = suc s2.stops } else enqueue c.contents s2

-- One round of the loop where the queue has started.
unfoldable pub fill_buffer : Answers → ℕ → Player → Player
fill_buffer a i s =
    let c = a.read s.audio_file s.m_current_packet in
    let s1 = use_file (allocate_buffer a i s) in
    enqueue c.contents (record s1 { m_current_packet = s.m_current_packet + c.packets })

-- `for (int i = 0; i < 3; i++)` over the rounds left.
unfoldable pub fill_buffers : Answers → ℕ → ℕ → Player → Player
unfolding fill_buffer
fill_buffers a zero i s = s
fill_buffers a (suc n) i s = fill_buffers a n (suc i) (fill_buffer a i s)

-- AudioQueueFreeBuffer and the NULL, in a loop.
unfoldable pub free_buffers : ℕ → ℕ → Player → Player
free_buffers zero i s = s
free_buffers (suc n) i s =
    free_buffers n (suc i)
      (record s { live = remove (s.buffers i) s.live; buffers = set_at s.buffers i null })

-- AudioEnginePropertyListenerProc, of whether the property is IsRunning, and whether it runs.
unfoldable pub property_listener : Answers → Bool → Bool → Player → Player
unfolding fill_buffers free_buffers
property_listener a is_running_property running s =
    if not is_running_property
    then s
    else if running
    then fill_buffers a number_buffers 0 (record s { m_current_packet = 0 })
    else if s.audio_file == null
    then s
    else let s1 =
        free_buffers number_buffers 0
          (record s { stops = suc s.stops; closes = suc s.closes; audio_file = null }) in
      record s1 { loop_stops = suc s1.loop_stops }

-- `main` up to CFRunLoopRun: the status that it returns, or the player that the loop runs with.
pub data Started : Type 0 where
  returned : ℕ → Started
  looping : Player → Started

unfoldable pub allocate_buffers : Answers → ℕ → ℕ → Player → Player
allocate_buffers a zero i s = s
allocate_buffers a (suc n) i s = allocate_buffers a n (suc i) (allocate_buffer a i s)

unfoldable pub main : Answers → Started
unfolding allocate_buffers
main a =
    if not (is_zero a.open_url.0)
    then returned 1
    else if not (is_zero a.get_property)
    then returned 1
    else if not (is_zero a.new_output.0)
    then returned 1
    else looping (
        allocate_buffers a 3 0
          (record initial { audio_file = a.open_url.1; queue = a.new_output.1 }))

-- What the run loop calls.
pub data Call : Type 0 where
  buffer_done : Call
  property : Bool → Bool → Call

abbrev pub handle : Answers → Call → Player → Player
handle a buffer_done s = buffer_callback a s
handle a (property is_running_property running) s =
    property_listener a is_running_property running s

unfoldable pub run_loop : Answers → List Call → Player → Player
run_loop a [] s = s
run_loop a (c ∷ cs) s = run_loop a cs (handle a c s)
