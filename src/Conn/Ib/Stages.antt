-- ===== src/Conn/Ib/Stages.antt =====
-- What ib-conn.c holds at each stage of a request.
use codelib.Base.{ℕ, ◌⊎◌, ◌≡◌, ◌∙◌, true, Option, none, some, List, ◌∷◌, arith}
use codelib.Base.Int.{is_zero}
use codelib.Conn.World.{Ptr, World, Post, bind, mono, pd, chan, cq, thread, acked}
use codelib.Conn.Cm.{accept, listen}
use codelib.Conn.Ib.{
  Context, new_queue, start_poller, new_context, build_context, register_memory, create_qp,
  new_connection,
}

-- The status of a server that ends at a failed call, or at a write through NULL.
abbrev pub Dies : ℕ → Type 0
Dies n = (n ≡ 1) ⊎ (n ≡ 139)

-- What a context adds to the objects held.
abbrev pub with_context : Option Context → (Context → Ptr) → List Ptr → List Ptr
with_context none f xs = xs
with_context (some c) f xs = f c ∷ xs

-- The objects of the context are held, each once, on top of those held at the start; no id changes
-- its device.
pub record Holding (verbs : Ptr → Ptr) (ps chs cqs ts : List ℕ) (s : Option Context) (w : World)
    : Type 0 where
  pub domains : w.live pd ≡ with_context s (λ c. c.pd) ps
  pub channels : w.live chan ≡ with_context s (λ c. c.comp_channel) chs
  pub queues : w.live cq ≡ with_context s (λ c. c.cq) cqs
  pub threads : w.live thread ≡ with_context s (λ c. c.cq_poller_thread) ts
  pub devices : (i : Ptr) → (w.ids i).verbs ≡ verbs i

-- What a handler leaves alone.
pub record KeepsContext (w v : World) : Type 0 where
  pub domains : v.live pd ≡ w.live pd
  pub channels : v.live chan ≡ w.live chan
  pub queues : v.live cq ≡ w.live cq
  pub threads : v.live thread ≡ w.live thread
  pub devices : (i : Ptr) → (v.ids i).verbs ≡ (w.ids i).verbs

-- Once there is a context, it stays.
abbrev pub Later : Option Context → Option Context → Type 0
Later none t = Unit {0}
Later (some c) t = t ≡ some c

module _ {verbs : Ptr → Ptr} {ps chs cqs ts : List ℕ} where
  new_queue_lem :
      {w : World}
      → Holding verbs ps chs cqs ts none w
      → Post
          (λ (_, p, c, q) v.
            (v.live pd ≡ p ∷ ps)
            × (v.live chan ≡ c ∷ chs)
            × (v.live cq ≡ q ∷ cqs)
            × (v.live thread ≡ ts)
            × ((i : Ptr) → (v.ids i).verbs ≡ verbs i))
          (λ n _. Dies n)
          (new_queue w)
  unfolding new_queue
  new_queue_lem h = ground (arith, h, h.devices)

  new_context_lem :
      (p : Ptr) {w : World}
      → Holding verbs ps chs cqs ts none w
      → Post
          (λ c v. Holding verbs ps chs cqs ts (some c) v × (c.ctx ≡ p))
          (λ n _. Dies n)
          (new_context p w)
  unfolding new_context start_poller
  new_context_lem p h =
      bind (new_queue_lem h) λ _ w1 (d, c, q, t, ids). ground (arith, d, c, q, t, ids)

  pub build_context_lem :
      (s : Option Context) (p : Ptr) {w : World}
      → Holding verbs ps chs cqs ts s w
      → Post
          (λ c v. Holding verbs ps chs cqs ts (some c) v × (c.ctx ≡ p) × Later s (some c))
          (λ n _. Dies n)
          (build_context s p w)
  unfolding build_context
  build_context_lem none p h = mono (new_context_lem p h) λ c v (k, e). (k, e, tt)
  build_context_lem (some c) p h = ground (arith, h, h.devices)

  module _ {s : Option Context} where
    pub register_memory_lem :
        (c : Context) (k : Ptr) {w : World}
        → Holding verbs ps chs cqs ts s w
        → Post (λ _ v. Holding verbs ps chs cqs ts s v) (λ n _. Dies n) (register_memory c k w)
    unfolding register_memory
    register_memory_lem c k h = ground (arith, h, h.devices)

    pub create_qp_lem :
        (c : Context) (i : Ptr) {w : World}
        → Holding verbs ps chs cqs ts s w
        → Post (λ _ v. Holding verbs ps chs cqs ts s v) (λ n _. Dies n) (create_qp c i w)
    unfolding create_qp
    create_qp_lem c i h = ground (arith, h, h.devices)

    pub new_connection_lem :
        (i : Ptr) {w : World}
        → Holding verbs ps chs cqs ts s w
        → Post (λ _ v. Holding verbs ps chs cqs ts s v) (λ n _. Dies n) (new_connection i w)
    unfolding new_connection
    new_connection_lem i h = ground (arith, h, h.devices)

    pub accept_lem :
        (i : Ptr) {w : World}
        → Holding verbs ps chs cqs ts s w
        → Post
            (λ r v. (is_zero r ≡ true) × Holding verbs ps chs cqs ts s v)
            (λ n _. Dies n)
            (accept i w)
    unfolding accept
    accept_lem i h = ground (arith, h, h.devices)

    pub listen_lem :
        {w : World}
        → Holding verbs ps chs cqs ts s w
        → Post (λ _ v. Holding verbs ps chs cqs ts s v) (λ n _. Dies n) (listen w)
    unfolding listen
    listen_lem h = ground (arith, h, h.devices)

    pub after_ack :
        {w : World}
        → Holding verbs ps chs cqs ts s w
        → Holding verbs ps chs cqs ts s (record w { log = acked ∷ w.log })
    after_ack h = ground (arith, h, h.devices)

    pub after_handler :
        {w v : World}
        → KeepsContext w v
        → Holding verbs ps chs cqs ts s w
        → Holding verbs ps chs cqs ts s v
    after_handler k h = record {
      domains = k.domains ∙ h.domains;
      channels = k.channels ∙ h.channels;
      queues = k.queues ∙ h.queues;
      threads = k.threads ∙ h.threads;
      devices = λ i. k.devices i ∙ h.devices i;
    }
