-- ===== src/Ibv/Sock/Pair/Barrier.antt =====
-- sock_sync_data as a barrier between the two sides.
use codelib.Base.{ℕ, suc, ◌+◌, ◌≤◌, ◌<◌, ◌≡◌, List, arith, length, length-append}
use codelib.Ibv.Sock.Pair.{
  Phase, sending, receiving, Side, SideStep, write, read, return, Pair, PairStep, client_step,
  server_step, PairReaches, start, next,
}
use codelib.Ibv.Sock.Pair.Sizes.{total, total-suc, total_strict}

-- The calls that a side has entered.
abbrev pub begun : Phase → ℕ → ℕ
begun sending c = c
begun (receiving n got) c = suc c

abbrev pub entered : Side → ℕ
entered s = begun s.phase s.call

-- The bytes that count for the call that a side is in.
abbrev pub progress : Phase → ℕ
progress sending = 0
progress (receiving n got) = n

-- The local_data of every call has its size.
pub record Fits (size : ℕ → ℕ) (local_data : ℕ → List ℕ) : Type 0 where
  pub fits : (i : ℕ) → length (local_data i) ≡ size i

pub record Counted (calls : ℕ) (size : ℕ → ℕ) (o : List ℕ) (s : Side) : Type 0 where
  pub few : entered s ≤ calls
  pub wrote : length s.out ≡ total size (entered s)
  pub took : total size s.call + progress s.phase ≤ s.taken
  pub within : s.taken ≤ length o

module _ {calls : ℕ} {size : ℕ → ℕ} {d : ℕ → List ℕ} (fits : Fits size d) where
  SideStep-Counted :
      {o : List ℕ} {s t : Side}
      → SideStep calls size d o s t
      → Counted calls size o s
      → Counted calls size o t × (length s.out ≤ length t.out)
  SideStep-Counted {o} {s} {t} (write e lt) h =
      ground (arith, h, fits.fits s.call, length-append s.out (d s.call), total-suc size s.call)
  SideStep-Counted {o} {s} {t} (read n k e lt pos le room) h = ground (arith, h)
  SideStep-Counted {o} {s} {t} (return n e le) h = ground (arith, h, total-suc size s.call)

Counted-grows :
    {calls : ℕ} {size : ℕ → ℕ} {o o' : List ℕ} {s : Side}
    → length o ≤ length o'
    → Counted calls size o s
    → Counted calls size o' s
Counted-grows le h = ground (arith, h)

pub record BothCounted (calls : ℕ) (size : ℕ → ℕ) (p : Pair) : Type 0 where
  pub client_counted : Counted calls size p.server.out p.client
  pub server_counted : Counted calls size p.client.out p.server

module _ {calls : ℕ} {size : ℕ → ℕ} {client_data server_data : ℕ → List ℕ}
    (client_fits : Fits size client_data) (server_fits : Fits size server_data) where
  PairStep-BothCounted :
      {p q : Pair}
      → PairStep calls size client_data server_data p q
      → BothCounted calls size p
      → BothCounted calls size q
  PairStep-BothCounted (client_step m) h =
      let (c, le) = SideStep-Counted client_fits m h.client_counted in
      record { client_counted = c; server_counted = Counted-grows le h.server_counted }
  PairStep-BothCounted (server_step m) h =
      let (c, le) = SideStep-Counted server_fits m h.server_counted in
      record { client_counted = Counted-grows le h.client_counted; server_counted = c }

  pub PairReaches-BothCounted :
      {p : Pair} → PairReaches calls size client_data server_data p → BothCounted calls size p
  unfolding total
  PairReaches-BothCounted start = ground arith
  PairReaches-BothCounted (next run m) = PairStep-BothCounted m (PairReaches-BothCounted run)

  -- The calls are a barrier, however the two sides and the pieces that are read are interleaved and
  -- whether or not bytes are stored past an array: where both make the same number of calls with the
  -- same sizes, none of them 0, a side has returned from no more calls than the other has entered.
  pub PairReaches-entered :
      {p : Pair}
      → ((i : ℕ) → 0 < size i)
      → PairReaches calls size client_data server_data p
      → (p.client.call ≤ entered p.server) × (p.server.call ≤ entered p.client)
  PairReaches-entered {p} some_bytes run =
      let h = PairReaches-BothCounted run in
      let c = h.client_counted in
      let s = h.server_counted in
      (
        total_strict size some_bytes p.client.call (entered p.server)
            (omega (arith, c.took, c.within, s.wrote)),
        total_strict size some_bytes p.server.call (entered p.client)
            (omega (arith, s.took, s.within, c.wrote)),
      )
