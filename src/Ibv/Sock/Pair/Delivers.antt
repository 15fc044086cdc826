-- ===== src/Ibv/Sock/Pair/Delivers.antt =====
-- What the calls of sock_sync_data of two sides receive.
use mathlib.Core.List.{append-nil}
use codelib.Base.{ℕ, ◌<◌, ◌≡◌, refl, sym, ap, subst, ◌∙◌, false, List, [], ◌++◌, arith}
use codelib.Ibv.Sock.Pair.{
  Side, SideStep, write, read, return, Pair, client_step, server_step, PairReaches, start, next,
}
use codelib.Ibv.Sock.Pair.Sizes.{total}
use codelib.Ibv.Sock.Pair.Barrier.{entered, Fits}
use codelib.Ibv.Sock.Pair.Exact.{
  stream, latest, Exact, Exact-grows, read-Exact, return-Exact, write-Exact, start-Exact,
}

-- What a side has written, and, while it has not overrun, what it holds of the other's.
pub record Follows (size : ℕ → ℕ) (mine d : ℕ → List ℕ) (o s : Side) : Type 0 where
  pub written : s.out ≡ stream mine (entered s)
  pub exact : s.overrun ≡ false → Exact size d o.out s

module _ {calls : ℕ} {size : ℕ → ℕ} {mine d : ℕ → List ℕ} (fits : Fits size d)
    (some_bytes : (i : ℕ) → 0 < size i) where
  SideStep-Follows :
      (o : Side) {s t : Side}
      → SideStep calls size mine o.out s t
      → o.out ≡ stream d (entered o)
      → Follows size mine d o s
      → Follows size mine d o t × ((x : List ℕ) × (t.out ≡ s.out ++ x))
  unfolding stream
  SideStep-Follows o {s} (write e lt) w h = (
    record {
      written = ap (λ l. l ++ mine s.call) (h.written ∙ rw e refl);
      exact = λ clean. write-Exact (mine s.call) e (h.exact clean);
    },
    (mine s.call, refl),
  )
  SideStep-Follows o {s} (read n k e lt pos le room) w h = (
    record {
      written = h.written ∙ rw e refl;
      exact = λ clean.
          read-Exact fits n k e (ground (arith, clean)) room (h.exact (ground (arith, clean)));
    },
    ([], sym (append-nil s.out)),
  )
  SideStep-Follows o {s} (return n e le) w h = (
    record {
      written = h.written ∙ rw e refl;
      exact = λ clean. return-Exact fits some_bytes o n e le w (h.exact clean);
    },
    ([], sym (append-nil s.out)),
  )

pub record BothFollow (size : ℕ → ℕ) (client_data server_data : ℕ → List ℕ) (p : Pair)
    : Type 0 where
  pub client_follows : Follows size client_data server_data p.server p.client
  pub server_follows : Follows size server_data client_data p.client p.server

-- The other side has gone on.
Follows-grows :
    {size : ℕ → ℕ} {mine d : ℕ → List ℕ} {o s : Side} (o' : Side)
    → ((x : List ℕ) × (o'.out ≡ o.out ++ x))
    → Follows size mine d o s
    → Follows size mine d o' s
Follows-grows {size} {mine} {d} {o} {s} o' (x, e) h = record {
  written = h.written;
  exact = λ clean. subst (λ l. Exact size d l s) (sym e) (Exact-grows x (h.exact clean));
}

module _ {calls : ℕ} {size : ℕ → ℕ} {client_data server_data : ℕ → List ℕ}
    (client_fits : Fits size client_data) (server_fits : Fits size server_data)
    (some_bytes : (i : ℕ) → 0 < size i) where
  pub PairReaches-BothFollow :
      {p : Pair}
      → PairReaches calls size client_data server_data p
      → BothFollow size client_data server_data p
  unfolding stream latest total
  PairReaches-BothFollow start = record {
    client_follows = record { written = refl; exact = λ clean. start-Exact };
    server_follows = record { written = refl; exact = λ clean. start-Exact };
  }
  PairReaches-BothFollow (next {p} run (client_step {s = s} m)) =
      let h = PairReaches-BothFollow run in
      let (c, grown) =
        SideStep-Follows server_fits some_bytes p.server m h.server_follows.written
          h.client_follows in
      record { client_follows = c; server_follows = Follows-grows s grown h.server_follows }
  PairReaches-BothFollow (next {p} run (server_step {s = s} m)) =
      let h = PairReaches-BothFollow run in
      let (c, grown) =
        SideStep-Follows client_fits some_bytes p.client m h.client_follows.written
          h.server_follows in
      record { client_follows = Follows-grows s grown h.client_follows; server_follows = c }

  -- In whatever pieces the bytes come and however the two sides are interleaved, as long as neither
  -- has stored past its array, each has received from each of its calls that returned exactly what
  -- the other side sends in the same call, where both make calls of the same sizes, none of them 0.
  pub PairReaches-latest :
      {p : Pair}
      → PairReaches calls size client_data server_data p
      → p.client.overrun ≡ false
      → p.server.overrun ≡ false
      → (p.client.returned ≡ latest server_data p.client.call)
        × (p.server.returned ≡ latest client_data p.server.call)
  PairReaches-latest run c_clean s_clean =
      let h = PairReaches-BothFollow run in
      ((h.client_follows.exact c_clean).back, (h.server_follows.exact s_clean).back)
