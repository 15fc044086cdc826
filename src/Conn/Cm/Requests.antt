-- ===== src/Conn/Cm/Requests.antt =====
-- What becomes of a connection request where librdmacm gave its id no queue pair.
use codelib.Base.{ℕ, suc, ◌≡◌, refl, Bool, true, false, ◌&&◌, List, [], ◌∷◌, arith}
use codelib.Base.Int.{is_zero}
use codelib.Conn.World.{
  Event, accepting, Ptr, null, Kind, region, conn, World, free, Post, bind, mono,
}
use codelib.Conn.Cm.{
  Endpoint, build_endpoint, create_endpoint_qp, new_connection, on_connect_request, on_connection,
  free_connection, on_disconnect, listen, CmEvent, connect_request, established, disconnected,
  other, on_event, event_loop, main,
}

-- How often rdma_accept was called.
abbrev pub accepts : List Event → ℕ
accepts [] = 0
accepts (accepting i ∷ es) = suc (accepts es)
accepts (_ ∷ es) = accepts es

-- No id has a queue pair: rdma_create_qp, which cm-conn.c does not call, is what sets it. And rdma_accept
-- was called so often.
pub record NoQp (count : ℕ) (w : World) : Type 0 where
  pub no_qp : (i : Ptr) → (w.ids i).qp ≡ null
  pub accepted : accepts w.log ≡ count

-- An exit with status 1 and no more calls of rdma_accept.
abbrev pub DiesUnaccepted : ℕ → ℕ → World → Type 0
DiesUnaccepted count n w = (n ≡ 1) × (accepts w.log ≡ count)

-- The events after which the server goes on.
pub ongoing : CmEvent → Bool
ongoing (established i) = true
ongoing (disconnected i) = true
ongoing _ = false

pub all_ongoing : List CmEvent → Bool
all_ongoing [] = true
all_ongoing (e ∷ es) = ongoing e && all_ongoing es

module _ {count : ℕ} where
  build_endpoint_keeps :
      (ctx : Ptr) {w : World}
      → NoQp count w
      → Post (λ _ v. NoQp count v) (DiesUnaccepted count) (build_endpoint ctx w)
  unfolding build_endpoint
  build_endpoint_keeps ctx h = ground (arith, h)

  create_endpoint_qp_keeps :
      (ep : Endpoint) {w : World}
      → NoQp count w
      → Post (λ _ v. NoQp count v) (DiesUnaccepted count) (create_endpoint_qp ep w)
  unfolding create_endpoint_qp
  create_endpoint_qp_keeps ep h = ground (arith, h)

  new_connection_dies :
      (i : Ptr) {w : World}
      → NoQp count w
      → Post (λ _ _. ⊥) (DiesUnaccepted count) (new_connection i w)
  unfolding new_connection
  new_connection_dies i h = rw (h.no_qp i) (record { outcome = (refl, h.accepted) })

  on_connect_request_dies :
      (pd i : Ptr) {w : World}
      → NoQp count w
      → Post (λ _ _. ⊥) (DiesUnaccepted count) (on_connect_request pd i w)
  unfolding on_connect_request
  on_connect_request_dies pd i {w} h = bind (build_endpoint_keeps (w.ids i).verbs h) λ ep w1 h1.
      bind (create_endpoint_qp_keeps ep h1)
        λ q w2 h2. bind (new_connection_dies i h2) λ c w3 never. absurd never

  on_connection_keeps :
      (c : Ptr) {w : World}
      → NoQp count w
      → Post (λ r v. (is_zero r ≡ true) × NoQp count v) (DiesUnaccepted count) (on_connection c w)
  unfolding on_connection
  on_connection_keeps c h = ground (arith, h)

  free_keeps :
      (k : Kind) (h : Ptr) {w : World}
      → NoQp count w
      → Post (λ _ v. NoQp count v) (DiesUnaccepted count) (free k h w)
  unfolding free
  free_keeps k h p = ground (arith, p)

  free_connection_keeps :
      (c : Ptr) {w : World}
      → NoQp count w
      → Post (λ _ v. NoQp count v) (DiesUnaccepted count) (free_connection c w)
  unfolding free_connection
  free_connection_keeps c h =
      bind (free_keeps region _ (record { no_qp = h.no_qp; accepted = h.accepted }))
        λ _ w1 h1. bind (free_keeps region _ h1) λ _ w2 h2. free_keeps conn _ h2

  on_disconnect_keeps :
      (i : Ptr) {w : World}
      → NoQp count w
      → Post (λ r v. (is_zero r ≡ true) × NoQp count v) (DiesUnaccepted count) (on_disconnect i w)
  unfolding on_disconnect
  on_disconnect_keeps i {w} h =
      bind
        (free_connection_keeps (w.ids i).context
          (record { no_qp = h.no_qp; accepted = h.accepted }))
        λ _ w1 h1. ground (arith, h1)

  on_event_keeps :
      (pd : Ptr) (e : CmEvent) {w : World}
      → NoQp count w
      → Post
          (λ r v. (is_zero r ≡ true) × (ongoing e ≡ true) × NoQp count v)
          (DiesUnaccepted count)
          (on_event pd e w)
  unfolding on_event ongoing
  on_event_keeps pd (connect_request i) h =
      mono (on_connect_request_dies pd i h) λ r v never. absurd never
  on_event_keeps pd (established i) {w} h =
      mono (on_connection_keeps (w.ids i).context h) λ r v (z, k). (z, refl, k)
  on_event_keeps pd (disconnected i) h = mono (on_disconnect_keeps i h) λ r v (z, k). (z, refl, k)
  on_event_keeps pd other h = record { outcome = (refl, h.accepted) }

  event_loop_keeps :
      (pd : Ptr) (es : List CmEvent) {w : World}
      → NoQp count w
      → Post
          (λ _ v. (all_ongoing es ≡ true) × NoQp count v)
          (DiesUnaccepted count)
          (event_loop pd es w)
  unfolding event_loop all_ongoing
  event_loop_keeps pd [] h = record { outcome = (refl, h) }
  event_loop_keeps pd (e ∷ es) h =
      bind (on_event_keeps pd e (record { no_qp = h.no_qp; accepted = h.accepted }))
        λ r w1 (z, o, h1). rw (z, o) (event_loop_keeps pd es h1)

  listen_keeps :
      {w : World} → NoQp count w → Post (λ _ v. NoQp count v) (DiesUnaccepted count) (listen w)
  unfolding listen
  listen_keeps h = ground (arith, h)

-- Where no id has a queue pair from librdmacm, which cm-conn.c never asks for one, no connection
-- request is ever accepted, whatever events come: main does not call rdma_accept, and either ends with
-- status 1, or returns 0 and the events were connections that are established or end, with no request
-- and no unknown event.
pub main_accepts_nobody :
    (pd : Ptr) (events : List CmEvent) (w : World)
    → ((i : Ptr) → (w.ids i).qp ≡ null)
    → Post
        (λ code v. (code ≡ 0) × (all_ongoing events ≡ true) × (accepts v.log ≡ accepts w.log))
        (λ n v. (n ≡ 1) × (accepts v.log ≡ accepts w.log))
        (main pd events w)
unfolding main
main_accepts_nobody pd events w h =
    bind (listen_keeps (record { no_qp = h; accepted = refl })) λ l w1 h1.
      bind (event_loop_keeps pd events h1)
        λ _ w2 (all, h2). record { outcome = (refl, all, h2.accepted) }
