-- ===== src/Ibv/Sock/Pair/Progress.antt =====
-- What two sides in their calls of sock_sync_data wait for.
use codelib.Base.{
  ℕ, suc, ◌≤◌, ◌<◌, ◌≡◌, refl, ◌⊎◌, inl, inr, nat_cases, false, List, ltb, Bool-cases, arith,
  length, ltb→lt, not_ltb→le,
}
use codelib.Ibv.Sock.Pair.{
  Phase, sending, receiving, Side, SideStep, write, read, return, Pair, PairStep, client_step,
  server_step, PairReaches,
}
use codelib.Ibv.Sock.Pair.Sizes.{total, total-suc, total_mono}
use codelib.Ibv.Sock.Pair.Barrier.{entered, Fits, Counted, BothCounted, PairReaches-BothCounted}
use codelib.Ibv.Sock.Pair.Exact.{Exact, taken-Exact}
use codelib.Ibv.Sock.Pair.Delivers.{BothFollow, PairReaches-BothFollow}

-- A side that has made all its calls.
abbrev Finished : ℕ → Side → Type 0
Finished calls s = (s.phase ≡ sending) × (s.call ≡ calls)

-- A side whose read has nothing to take yet.
record Waits (size : ℕ → ℕ) (o : List ℕ) (s : Side) : Type 0 where
  pub n : ℕ
  pub got : List ℕ
  pub inside : s.phase ≡ receiving n got
  pub more : n < size s.call
  pub empty : length o ≤ s.taken

module _ {calls : ℕ} {size : ℕ → ℕ} (mine : ℕ → List ℕ) (o : List ℕ) where
  phase_cases :
      (s : Side) (p : Phase)
      → s.phase ≡ p
      → entered s ≤ calls
      → Finished calls s ⊎ (((t : Side) × SideStep calls size mine o s t) ⊎ Waits size o s)
  phase_cases s sending e few = elim (nat_cases s.call calls) [
    | inl same ↦ inl (e, same)
    | inr (inl lt) ↦ inr (inl (_, write e lt))
    | inr (inr gt) ↦ absurd (ground (arith, few, gt, e))
  ]
  phase_cases s (receiving n got) e few = elim (Bool-cases (ltb n (size s.call))) [
    | inr done ↦ inr (inl (_, return n e (not_ltb→le _ _ done)))
    | inl more ↦ elim (Bool-cases (ltb s.taken (length o))) [
      | inl some_there ↦ inr (
          inl (
            _,
            read n 1 e (ltb→lt _ _ more) (omega arith) (omega (arith, ltb→lt _ _ more))
                (omega (arith, ltb→lt _ _ some_there)),
          ))
      | inr none_there ↦ inr (
          inr (record {
            n = n;
            got = got;
            inside = e;
            more = ltb→lt _ _ more;
            empty = not_ltb→le _ _ none_there;
          }))
    ]
  ]

total_lt : (size : ℕ → ℕ) (j k : ℕ) → total size j < total size k → j < k
total_lt size j k h = elim (nat_cases j k) [
  | inl e ↦ absurd (ground (arith, h, e))
  | inr (inl lt) ↦ lt
  | inr (inr gt) ↦ absurd (omega (arith, h, total_mono size k j (omega (arith, gt))))
]

-- A side that waits is in a later call than the last that the other has entered.
Waits-entered :
    {size : ℕ → ℕ} {d : ℕ → List ℕ} (o s : Side)
    → length o.out ≡ total size (entered o)
    → Exact size d o.out s
    → Waits size o.out s
    → entered o ≤ s.call
Waits-entered {size} o s wrote x w = omega (
  arith,
  total_lt size (entered o) (suc s.call)
      (omega (arith, wrote, w.empty, w.more, taken-Exact w.n w.inside x, total-suc size s.call)),
)

-- A side that waits is inside a call.
entered-Waits : {size : ℕ → ℕ} (o s : Side) → Waits size o.out s → entered s ≡ suc s.call
entered-Waits o s w = rw w.inside refl

idle-entered : (s : Side) → s.phase ≡ sending → entered s ≡ s.call
idle-entered s e = rw e refl

module _ {calls : ℕ} {size : ℕ → ℕ} {client_data server_data : ℕ → List ℕ}
    (client_fits : Fits size client_data) (server_fits : Fits size server_data)
    (some_bytes : (i : ℕ) → 0 < size i) where
  -- As long as neither side has stored past its array, the two never wait for each other, where both
  -- make calls of the same sizes, none of them 0: both have returned from all their calls, or one of
  -- them can go on.
  pub PairReaches-PairStep :
      (p : Pair)
      → PairReaches calls size client_data server_data p
      → p.client.overrun ≡ false
      → p.server.overrun ≡ false
      → ((p.client.call ≡ calls) × (p.server.call ≡ calls))
        ⊎ ((q : Pair) × PairStep calls size client_data server_data p q)
  PairReaches-PairStep p run c_clean s_clean = elim client_cases [
    | inr (inl (t, m)) ↦ inr (_, client_step m)
    | inl (c_idle, c_done) ↦ elim server_cases [
      | inr (inl (t, m)) ↦ inr (_, server_step m)
      | inl (s_idle, s_done) ↦ inl (c_done, s_done)
      | inr (inr w) ↦ absurd (
          omega (
            arith,
            idle-entered p.client c_idle,
            c_done,
            s_behind w,
            entered-Waits p.client p.server w,
            s.few,
          ))
    ]
    | inr (inr v) ↦ elim server_cases [
      | inr (inl (t, m)) ↦ inr (_, server_step m)
      | inl (s_idle, s_done) ↦ absurd (
          omega (
            arith,
            idle-entered p.server s_idle,
            s_done,
            c_behind v,
            entered-Waits p.server p.client v,
            c.few,
          ))
      | inr (inr w) ↦ absurd (
          omega (
            arith,
            c_behind v,
            s_behind w,
            entered-Waits p.server p.client v,
            entered-Waits p.client p.server w,
          ))
    ]
  ]
    where
      both : BothCounted calls size p
      both = PairReaches-BothCounted client_fits server_fits run

      c : Counted calls size p.server.out p.client
      c = both.client_counted

      s : Counted calls size p.client.out p.server
      s = both.server_counted

      client_cases :
          Finished calls p.client
          ⊎ (((t : Side) × SideStep calls size client_data p.server.out p.client t)
              ⊎ Waits size p.server.out p.client)
      client_cases = phase_cases client_data p.server.out p.client p.client.phase refl c.few

      server_cases :
          Finished calls p.server
          ⊎ (((t : Side) × SideStep calls size server_data p.client.out p.server t)
              ⊎ Waits size p.client.out p.server)
      server_cases = phase_cases server_data p.client.out p.server p.server.phase refl s.few

      follow : BothFollow size client_data server_data p
      follow = PairReaches-BothFollow client_fits server_fits some_bytes run

      c_behind : Waits size p.server.out p.client → entered p.server ≤ p.client.call
      c_behind = Waits-entered p.server p.client s.wrote (follow.client_follows.exact c_clean)

      s_behind : Waits size p.client.out p.server → entered p.client ≤ p.server.call
      s_behind = Waits-entered p.client p.server c.wrote (follow.server_follows.exact s_clean)
