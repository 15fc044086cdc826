-- ===== src/Conn/Ib/Tests.antt =====
-- A run of ib-conn.c with two requests, and the theorem there.
use codelib.Base.{◌≡◌, refl, true, List, [], ◌∷◌}
use codelib.Base.Int.{ℤ, pos}
use codelib.Conn.World.{Ptr, World, Cmd, pure, Post}
use codelib.Conn.Samples.{start}
use codelib.Conn.Cm.{CmEvent, connect_request, established, disconnected}
use codelib.Conn.Ib.{main}
use codelib.Conn.Ib.Stages.{Dies, Holding, KeepsContext}
use codelib.Conn.Ib.OneContext.{Handlers, one_device, main_builds_one_context}

abbrev nothing : Ptr → Cmd (Unit {0})
nothing p = pure tt

abbrev returns_zero : Ptr → Cmd ℤ
returns_zero p = pure (pos 0)

kept : {w : World} → KeepsContext w w
kept = record {
  domains = refl;
  channels = refl;
  queues = refl;
  threads = refl;
  devices = λ i. refl;
}

handlers : Handlers nothing returns_zero returns_zero
handlers = record {
  receives = λ c w. record { outcome = kept };
  connection = λ c w. record { outcome = (refl, kept) };
  disconnect = λ i w. record { outcome = (refl, kept) };
}

abbrev two_requests : List CmEvent
two_requests = connect_request 5 ∷ established 5 ∷ connect_request 6 ∷ disconnected 5 ∷ []

main_builds_one_context_example :
    Post
      (λ (code, t) v.
        (code ≡ 0) × Holding (λ i. 1) [] [] [] [] t v × (one_device (λ i. 1) t two_requests ≡ true))
      (λ n _. Dies n)
      (main nothing returns_zero returns_zero two_requests (start 0))
main_builds_one_context_example =
    main_builds_one_context handlers two_requests
      record { domains = refl; channels = refl; queues = refl; threads = refl; devices = λ i. refl }
