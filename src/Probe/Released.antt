-- ===== src/Probe/Released.antt =====
-- What verb-probe.c holds at each of its stages.
use codelib.Base.{
  ℕ, zero, suc, ◌≡◌, ◌≢◌, refl, false, Bool-cases, inl, inr, not, ◌||◌, List, [], ◌∷◌, length,
  arith,
}
use codelib.Base.Int.{is_negative}
use codelib.Ibv.World.{Ptr, null, World, has, dev_list, context, pd, cq, buf, mr, qp, chan}
use codelib.Ibv.Owned.{Post, bind, mono, weaken_stop}
use codelib.Probe.{
  open_first, query_gids, query, register, create_queues, destroy_queues, drop_domain, close_device,
  main,
}

-- The objects held, by kind.
pub record Holds (dl ctx p b m c q : List ℕ) (w : World) : Type 0 where
  pub lists : w.live dev_list ≡ dl
  pub contexts : w.live context ≡ ctx
  pub domains : w.live pd ≡ p
  pub buffers : w.live buf ≡ b
  pub regions : w.live mr ≡ m
  pub channels : w.live chan ≡ c
  pub queues : w.live cq ≡ q
  pub pairs : w.live qp ≡ []
  pub clean : w.misuse ≡ false

-- What the program relies on and does not test: there is a device, and there is memory.
pub record Supplied (w : World) : Type 0 where
  pub list_there : (w.env.get_device_list w.tick).0 ≢ null
  pub device_there : length (w.env.get_device_list w.tick).1 ≢ 0
  pub memory_there : (t : ℕ) → w.env.malloc t ≢ null

open_first_lem :
    {w : World}
    → Supplied w
    → Holds [] [] [] [] [] [] [] w
    → Post
        (λ (pdev, ctx) v. Holds (pdev ∷ []) (ctx ∷ []) [] [] [] [] [] v × (v.env ≡ w.env))
        (λ v. v.misuse ≡ false)
        (open_first w)
unfolding open_first
open_first_lem {w} s h = ground (arith, s.list_there, s.device_there)

module _ {dl p b m c q : List ℕ} (ctx : Ptr) where
  query_gids_lem :
      (n : ℕ) {w : World}
      → Holds dl (ctx ∷ []) p b m c q w
      → Post
          (λ _ v. Holds dl (ctx ∷ []) p b m c q v × (v.env ≡ w.env))
          (λ _. ⊥)
          (query_gids n ctx w)
  unfolding query_gids
  query_gids_lem zero h = record { outcome = (h, refl) }
  query_gids_lem (suc n) {w} h = elim (Bool-cases (is_negative (w.env.query_gid w.tick).0)) [
    | inl bad ↦ rw bad (ground (arith, h))
    | inr good ↦ rw good (
        mono
          (query_gids_lem n
            {w = record w {
              tick = suc w.tick;
              misuse = w.misuse || not (has ctx (w.live context));
            }}
            (ground (arith, h)))
          λ r v k. k)
  ]

  query_lem :
      {w : World}
      → Holds dl (ctx ∷ []) p b m c q w
      → Post
          (λ _ v. Holds dl (ctx ∷ []) p b m c q v × (v.env ≡ w.env))
          (λ v. v.misuse ≡ false)
          (query ctx w)
  unfolding query
  query_lem {w} h = elim (Bool-cases (is_negative (w.env.query_device w.tick))) [
    | inl bad ↦ rw bad (ground (arith, h))
    | inr good ↦ elim (Bool-cases (is_negative (w.env.query_port (suc w.tick)).0)) [
      | inl bad ↦ rw (good, bad) (ground (arith, h))
      | inr fine ↦ rw (good, fine) (weaken_stop (query_gids_lem _ (ground (arith, h))))
    ]
  ]

module _ {dl : List ℕ} (ctx : Ptr) where
  register_lem :
      {w : World}
      → ((t : ℕ) → w.env.malloc t ≢ null)
      → Holds dl (ctx ∷ []) [] [] [] [] [] w
      → Post
          (λ (p, m) v.
            Holds dl (ctx ∷ []) (p ∷ []) (w.env.malloc (suc w.tick) ∷ []) (m ∷ []) [] [] v)
          (λ v. v.misuse ≡ false)
          (register ctx w)
  unfolding register
  register_lem {w} memory h = ground (arith, h, memory (suc w.tick))

module _ {dl p b m : List ℕ} (ctx : Ptr) where
  create_queues_lem :
      {w : World}
      → Holds dl (ctx ∷ []) p b m [] [] w
      → Post
          (λ (c, q1, q2) v. Holds dl (ctx ∷ []) p b m (c ∷ []) (q2 ∷ q1 ∷ []) v)
          (λ v. v.misuse ≡ false)
          (create_queues ctx w)
  unfolding create_queues
  create_queues_lem {w} h = ground (arith, h)

  destroy_queues_lem :
      (c q1 q2 : Ptr) {w : World}
      → Holds dl (ctx ∷ []) p b m (c ∷ []) (q2 ∷ q1 ∷ []) w
      → Post (λ _ v. Holds dl (ctx ∷ []) p b m [] [] v) (λ _. ⊥) (destroy_queues c q1 q2 w)
  unfolding destroy_queues
  destroy_queues_lem c q1 q2 h = ground (arith, h)

drop_domain_lem :
    {dl ctx b : List ℕ} (p m : Ptr) {w : World}
    → Holds dl ctx (p ∷ []) b (m ∷ []) [] [] w
    → Post (λ _ v. Holds dl ctx [] b [] [] [] v) (λ _. ⊥) (drop_domain p m w)
unfolding drop_domain
drop_domain_lem p m h = ground (arith, h)

close_device_lem :
    {b : List ℕ} (ctx pdev : Ptr) {w : World}
    → Holds (pdev ∷ []) (ctx ∷ []) [] b [] [] [] w
    → Post (λ code v. (code ≡ 0) × Holds [] [] [] b [] [] [] v) (λ _. ⊥) (close_device ctx pdev w)
unfolding close_device
close_device_lem ctx pdev h = ground (arith, h)

-- Where there is a device and memory, and nothing is held at the start, a run of main that returns
-- returns 0 and has given everything back, each once and before what it depends on, but for the
-- buffer of the memory region, which it never frees. It exits early without having used anything
-- that it did not hold, and never waits without end.
pub main_keeps_buffer :
    {w : World}
    → Supplied w
    → Holds [] [] [] [] [] [] [] w
    → Post
        (λ code v. (code ≡ 0) × ((b : Ptr) × (b ≢ null) × Holds [] [] [] (b ∷ []) [] [] [] v))
        (λ v. v.misuse ≡ false)
        (main w)
unfolding main
main_keeps_buffer {w} s h = bind (open_first_lem s h) λ (pdev, ctx) w1 (h1, e1).
    bind (query_lem ctx h1) λ _ w2 (h2, e2).
      let memory : (t : ℕ) → w2.env.malloc t ≢ null = rw (e2, e1) s.memory_there in
      bind (register_lem ctx memory h2) λ (p, m) w3 h3.
        bind (create_queues_lem ctx h3) λ (c, q1, q2) w4 h4. weaken_stop (
          bind (destroy_queues_lem ctx c q1 q2 h4) λ _ w5 h5.
            bind (drop_domain_lem p m h5) λ _ w6 h6.
              mono (close_device_lem ctx pdev h6)
                λ code v (z, h7). (z, (_, memory (suc w2.tick), h7)))
