-- ===== src/Ibv/Sock/Pair/Overrun.antt =====
-- What a read past the end of the array costs in the calls of sock_sync_data of two sides.
use codelib.Base.{
  ℕ, ◌+◌, ◌≤◌, ◌<◌, ◌≡◌, refl, true, ◌⊎◌, nat_cases, List, arith, length, length-append,
}
use codelib.Ibv.Sock.Pair.{
  Phase, sending, receiving, Side, SideStep, write, read, return, Pair, PairStep, client_step,
  server_step, PairReaches, start, next,
}
use codelib.Ibv.Sock.Pair.Sizes.{total, total-suc, total_mono}
use codelib.Ibv.Sock.Pair.Barrier.{entered, Fits, Counted, BothCounted, PairReaches-BothCounted}

-- More has been read than the calls so far account for.
abbrev Ahead : (ℕ → ℕ) → Phase → ℕ → ℕ → Type 0
Ahead size sending c taken = total size c < taken
Ahead size (receiving n got) c taken = (total size c + n < taken) ⊎ (size c < n)

record Overran (size : ℕ → ℕ) (s : Side) : Type 0 where
  pub ahead : s.overrun ≡ true → Ahead size s.phase s.call s.taken

module _ {calls : ℕ} {size : ℕ → ℕ} {o : List ℕ} where
  SideStep-Overran :
      {f : ℕ → List ℕ} {s t : Side}
      → SideStep calls size f o s t
      → Counted calls size o s
      → Overran size s
      → Overran size t
  SideStep-Overran {f} {s} (write e lt) c h = ground (arith, c, h)
  SideStep-Overran {f} {s} (read n k e lt pos le room) c h = ground (arith, c, h)
  SideStep-Overran {f} {s} (return n e le) c h = ground (arith, c, h, total-suc size s.call)

record BothOverran (size : ℕ → ℕ) (p : Pair) : Type 0 where
  pub client_overran : Overran size p.client
  pub server_overran : Overran size p.server

-- A side whose calls have all returned has read no more than the other side writes in all.
Overran-call :
    {calls : ℕ} {size : ℕ → ℕ} {s : Side} (o : Side)
    → Counted calls size o.out s
    → length o.out ≡ total size (entered o)
    → entered o ≤ calls
    → Overran size s
    → s.overrun ≡ true
    → s.call < calls
Overran-call {calls} {size} {s} o c wrote few h over =
    ground
      (arith, c, h, over, wrote, few, total_mono size (entered o) calls few, nat_cases s.call calls)

module _ {calls : ℕ} {size : ℕ → ℕ} {client_data server_data : ℕ → List ℕ}
    (client_fits : Fits size client_data) (server_fits : Fits size server_data) where
  PairStep-BothOverran :
      {p q : Pair}
      → PairStep calls size client_data server_data p q
      → BothCounted calls size p
      → BothOverran size p
      → BothOverran size q
  PairStep-BothOverran (client_step m) c h = record {
    client_overran = SideStep-Overran m c.client_counted h.client_overran;
    server_overran = h.server_overran;
  }
  PairStep-BothOverran (server_step m) c h = record {
    client_overran = h.client_overran;
    server_overran = SideStep-Overran m c.server_counted h.server_overran;
  }

  PairReaches-BothOverran :
      {p : Pair} → PairReaches calls size client_data server_data p → BothOverran size p
  PairReaches-BothOverran start = ground arith
  PairReaches-BothOverran (next run m) =
      PairStep-BothOverran m (PairReaches-BothCounted client_fits server_fits run)
        (PairReaches-BothOverran run)

  -- A server that has ever stored past its array, with a read that took bytes of the client's next
  -- call, never returns from its last call, however the two are interleaved: the bytes that it took
  -- too early are missing there.
  pub PairReaches-overrun :
      {p : Pair}
      → PairReaches calls size client_data server_data p
      → p.server.overrun ≡ true
      → p.server.call < calls
  PairReaches-overrun {p} run over =
      let c = PairReaches-BothCounted client_fits server_fits run in
      let h = PairReaches-BothOverran run in
      Overran-call p.client c.server_counted c.client_counted.wrote c.client_counted.few
        h.server_overran over

  -- Where there is a second call, a first read that falls short and a second that is asked for the whole
  -- size again reach such a state.
  pub overrun_reached :
      2 ≤ calls
      → 2 ≤ size 0
      → 1 ≤ size 1
      → (p : Pair) × PairReaches calls size client_data server_data p × (p.server.overrun ≡ true)
  overrun_reached two long more = (
    _,
    next
        (next
          (next
            (next
              (next
                (next (next start (client_step (write refl (omega (arith, two)))))
                  (server_step (write refl (omega (arith, two)))))
                (client_step (
                  read 0 (size 0) refl (omega (arith, long)) (omega (arith, long)) (omega arith)
                    (omega (arith, server_fits.fits 0)))))
              (client_step (return (0 + size 0) refl (omega arith))))
            (client_step (write refl (omega (arith, two)))))
          (server_step (
            read 0 1 refl (omega (arith, long)) (omega arith) (omega (arith, long))
              (omega (arith, client_fits.fits 0, length-append (client_data 0) (client_data 1))))))
        (server_step (
          read (0 + 1) (size 0) refl (omega (arith, long)) (omega (arith, long)) (omega arith) (
            omega (
              arith,
              more,
              client_fits.fits 0,
              client_fits.fits 1,
              length-append (client_data 0) (client_data 1),
            )))),
    ground (arith, long),
  )
