-- ===== src/Conn/Ib/OneContext.antt =====
-- The one context that ib-conn.c builds, whatever requests come.
use codelib.Base.{
  ℕ, inl, ◌≡◌, refl, subst, ◌∙◌, Bool, true, false, ◌&&◌, Option, none, some, List, [], ◌∷◌, ◌==◌,
  arith,
}
use codelib.Base.Int.{ℤ, is_zero}
use codelib.Conn.World.{Ptr, World, Cmd, Post, bind, mono}
use codelib.Conn.Cm.{CmEvent, connect_request, established, disconnected, other}
use codelib.Conn.Ib.{Context, on_connect_request, on_event, event_loop, main}
use codelib.Conn.Ib.Stages.{
  Dies, Holding, KeepsContext, Later, build_context_lem, register_memory_lem, create_qp_lem,
  new_connection_lem, accept_lem, listen_lem, after_ack, after_handler,
}

abbrev pub on_device : Option Context → Ptr → Bool
on_device none p = false
on_device (some c) p = c.ctx == p

-- Every request is one of the device of the context, and no event is unknown.
abbrev pub one_device : (Ptr → Ptr) → Option Context → List CmEvent → Bool
one_device verbs s [] = true
one_device verbs s (connect_request i ∷ es) = on_device s (verbs i) && one_device verbs s es
one_device verbs s (established i ∷ es) = one_device verbs s es
one_device verbs s (disconnected i ∷ es) = one_device verbs s es
one_device verbs s (other ∷ es) = false

-- The handlers that ib-conn.c declares only, and of which nothing else is known: they may end the
-- process, return 0 else, and leave the context alone.
pub record Handlers (post_receives : Ptr → Cmd (Unit {0}))
    (on_connection on_disconnect : Ptr → Cmd ℤ) : Type 0 where
  pub receives :
      (c : Ptr) (w : World) → Post (λ _ v. KeepsContext w v) (λ n _. Dies n) (post_receives c w)
  pub connection :
      (c : Ptr) (w : World)
      → Post (λ r v. (is_zero r ≡ true) × KeepsContext w v) (λ n _. Dies n) (on_connection c w)
  pub disconnect :
      (i : Ptr) (w : World)
      → Post (λ r v. (is_zero r ≡ true) × KeepsContext w v) (λ n _. Dies n) (on_disconnect i w)

same_number : {a b : ℕ} → a ≡ b → (a == b) ≡ true
same_number h = ground (arith, h)

Later-device :
    (s t : Option Context) (p : Ptr) → Later s t → on_device s p ≡ true → on_device t p ≡ true
Later-device none t p l h = absurd (cc (h))
Later-device (some c) t p l h = rw l h

Later-refl : (s : Option Context) → Later s s
Later-refl none = tt
Later-refl (some c) = refl

Later-trans : (s t u : Option Context) → Later s t → Later t u → Later s u
Later-trans none t u l m = tt
Later-trans (some c) t u l m = subst (λ x. Later x u) l m

and_true : (a : Bool) → a && true ≡ true → a ≡ true
and_true a h = ground (arith, h)

prepend :
    (verbs : Ptr → Ptr) (t u : Option Context) (e : CmEvent) (es : List CmEvent)
    → Later t u
    → one_device verbs t (e ∷ []) ≡ true
    → one_device verbs u es ≡ true
    → one_device verbs u (e ∷ es) ≡ true
prepend verbs t u (connect_request i) es l h k =
    rw (Later-device t u (verbs i) l (and_true _ h), k) refl
prepend verbs t u (established i) es l h k = k
prepend verbs t u (disconnected i) es l h k = k
prepend verbs t u other es l h k = absurd (cc (h))

module _ {post_receives : Ptr → Cmd (Unit {0})} {on_connection on_disconnect : Ptr → Cmd ℤ}
    (handlers : Handlers post_receives on_connection on_disconnect) {verbs : Ptr → Ptr}
    {ps chs cqs ts : List ℕ} where
  on_connect_request_lem :
      (s : Option Context) (i : Ptr) {w : World}
      → Holding verbs ps chs cqs ts s w
      → Post
          (λ (r, t) v.
            (is_zero r ≡ true)
            × Holding verbs ps chs cqs ts t v
            × Later s t
            × (on_device t (verbs i) ≡ true))
          (λ n _. Dies n)
          (on_connect_request post_receives on_connection on_disconnect s i w)
  unfolding on_connect_request
  on_connect_request_lem s i {w} h =
      bind (build_context_lem s (w.ids i).verbs h) λ c w1 (h1, e1, l1).
        bind (create_qp_lem c i h1) λ _ w2 h2. bind (new_connection_lem i h2) λ k w3 h3.
          bind (register_memory_lem c k h3) λ _ w4 h4. bind (handlers.receives k w4) λ _ w5 k5.
            bind (accept_lem i (after_handler k5 h4))
              λ r w6 (z, h6). record { outcome = (z, h6, l1, same_number (e1 ∙ h.devices i)) }

  on_event_lem :
      (s : Option Context) (e : CmEvent) {w : World}
      → Holding verbs ps chs cqs ts s w
      → Post
          (λ (r, t) v.
            (is_zero r ≡ true)
            × Holding verbs ps chs cqs ts t v
            × Later s t
            × (one_device verbs t (e ∷ []) ≡ true))
          (λ n _. Dies n)
          (on_event post_receives on_connection on_disconnect s e w)
  unfolding on_event
  on_event_lem s (connect_request i) h =
      mono (on_connect_request_lem s i h) λ r v (z, k, l, d). (z, k, l, rw d refl)
  on_event_lem s (established i) {w} h =
      bind (handlers.connection (w.ids i).context w)
        λ r v (z, k). record { outcome = (z, after_handler k h, Later-refl s, refl) }
  on_event_lem s (disconnected i) {w} h =
      bind (handlers.disconnect i w)
        λ r v (z, k). record { outcome = (z, after_handler k h, Later-refl s, refl) }
  on_event_lem s other h = record { outcome = inl refl }

  event_loop_lem :
      (s : Option Context) (es : List CmEvent) {w : World}
      → Holding verbs ps chs cqs ts s w
      → Post
          (λ t v. Holding verbs ps chs cqs ts t v × Later s t × (one_device verbs t es ≡ true))
          (λ n _. Dies n)
          (event_loop post_receives on_connection on_disconnect s es w)
  unfolding event_loop
  event_loop_lem s [] h = record { outcome = (h, Later-refl s, refl) }
  event_loop_lem s (e ∷ es) h = bind (on_event_lem s e (after_ack h)) λ (r, t) w1 (z, h1, l1, d1).
      rw z (
        mono (event_loop_lem t es h1)
          λ u v (h2, l2, d2). (h2, Later-trans s t u l1 l2, prepend verbs t u e es l2 d1 d2))

  -- The three handlers that ib-conn.c only declares are taken to return 0 or end the process with
  -- one of the two statuses, and to leave the objects of the context and the ids' devices alone.
  -- Then main returns 0 holding, beside what was held at the start, nothing or one protection
  -- domain, channel, completion queue and polling thread, however many requests came; every
  -- request was one of the device of that context and no event was unknown. Else it ends with
  -- status 1, or with 139, that of a write through NULL.
  pub main_builds_one_context :
      (events : List CmEvent) {w : World}
      → Holding verbs ps chs cqs ts none w
      → Post
          (λ (code, t) v.
            (code ≡ 0) × Holding verbs ps chs cqs ts t v × (one_device verbs t events ≡ true))
          (λ n _. Dies n)
          (main post_receives on_connection on_disconnect events w)
  unfolding main
  main_builds_one_context events h = bind (listen_lem h) λ l w1 h1.
      bind (event_loop_lem none events h1) λ t w2 (h2, l2, d2). ground (arith, h2, h2.devices, d2)
