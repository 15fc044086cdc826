-- ===== src/Probe/Tests.antt =====
-- A run of verb-probe.c with one device, and the theorem there.
use codelib.Base.{◌≡◌, ◌≢◌, refl, false, [], ◌∷◌, arith}
use codelib.Ibv.World.{Ptr, null}
use codelib.Ibv.Owned.{Post}
use codelib.Ibv.Samples.{start}
use codelib.Probe.{main}
use codelib.Probe.Released.{Holds, Supplied, main_keeps_buffer}

supplied : Supplied (start 0)
supplied = record {
  list_there = λ h. absurd (omega (arith, h));
  device_there = λ h. absurd (omega (arith, h));
  memory_there = λ t h. absurd (omega (arith, h));
}

nothing_held : Holds [] [] [] [] [] [] [] (start 0)
nothing_held = record {
  lists = refl;
  contexts = refl;
  domains = refl;
  buffers = refl;
  regions = refl;
  channels = refl;
  queues = refl;
  pairs = refl;
  clean = refl;
}

main_keeps_buffer_example :
    Post
      (λ code v. (code ≡ 0) × ((b : Ptr) × (b ≢ null) × Holds [] [] [] (b ∷ []) [] [] [] v))
      (λ v. v.misuse ≡ false)
      (main (start 0))
main_keeps_buffer_example = main_keeps_buffer supplied nothing_held
