-- ===== src/Conn/Cm/Tests.antt =====
-- Runs of cm-conn.c, and the theorems there.
use codelib.Base.{◌≡◌, refl, Bool, true, false, List, [], ◌∷◌}
use codelib.Base.Int.{pos}
use codelib.Conn.World.{Wc, null, Run, ok, exited, Post, free}
use codelib.Conn.Samples.{start}
use codelib.Conn.Cm.{
  CmEvent, connect_request, established, disconnected, event_loop, main, took, failed, Round,
  poll_cq, on_event, on_connect_request, build_endpoint, create_endpoint_qp, new_connection,
  register_memory, post_receives, accept, on_connection, on_disconnect, free_connection,
}
use codelib.Conn.Cm.Requests.{accepts, all_ongoing, main_accepts_nobody}
use codelib.Conn.Cm.Polls.{Tells, told, all_rounds_succeed, poll_cq_lem}

abbrev some_events : List CmEvent
some_events = established 5 ∷ connect_request 5 ∷ disconnected 5 ∷ []

main_accepts_nobody_example :
    Post
      (λ code v. (code ≡ 0) × (all_ongoing some_events ≡ true) × (accepts v.log ≡ 0))
      (λ n v. (n ≡ 1) × (accepts v.log ≡ 0))
      (main 3 some_events (start null))
main_accepts_nobody_example = main_accepts_nobody 3 some_events (start null) λ i. refl

-- What wc is by chance.
abbrev garbage : Wc
garbage = record { success = false; recv = false; send = false; wr_id = 7 }

-- A receive, a call that fails, and a send; then a completion that fails.
abbrev two_rounds : List Round
two_rounds =
    record {
      get_cq_event = pos 0;
      req_notify_cq = pos 0;
      polls =
          took (record { success = true; recv = true; send = false; wr_id = 8 })
          ∷ failed
          ∷ took (record { success = true; recv = false; send = true; wr_id = 8 })
          ∷ [];
    }
    ∷ record {
      get_cq_event = pos 0;
      req_notify_cq = pos 0;
      polls = took (record { success = false; recv = false; send = true; wr_id = 8 }) ∷ [];
    }
    ∷ []

poll_cq_lem_example :
    Tells tt
      (all_rounds_succeed garbage two_rounds)
      (told (start 77).conns garbage two_rounds)
      (start 77)
      (poll_cq garbage two_rounds (start 77))
poll_cq_lem_example = poll_cq_lem garbage two_rounds (start 77)

abbrev returned : {A : Type 0} → Run A → Bool
returned (ok a w) = true
returned (exited n w) = false

cycle_returns :
    returned (event_loop 3 (connect_request 5 ∷ established 5 ∷ disconnected 5 ∷ []) (start 77))
    ≡ true
unfolding event_loop on_event on_connect_request build_endpoint create_endpoint_qp new_connection
    register_memory post_receives accept on_connection on_disconnect free_connection free
cycle_returns = refl
