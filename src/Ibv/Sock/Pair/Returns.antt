-- ===== src/Ibv/Sock/Pair/Returns.antt =====
-- What sock_sync_data, as Ibv/Sock has it, returns to a side that runs together with the other.
use mathlib.Core.List.{flatten}
use codelib.Base.{
  ℕ, suc, ◌≤◌, ◌<◌, ◌≡◌, refl, sym, ap, ◌∙◌, ◌⊎◌, inl, inr, Bool-cases, true, false, List, [], ◌∷◌,
  ◌++◌, length,
}
use codelib.Base.Int.{ℤ, pos}
use codelib.Ibv.World.{World}
use codelib.Ibv.Owned.{Post, mono, IsOpen}
use codelib.Ibv.Sock.{sock_sync_data, less_than}
use codelib.Ibv.Sock.Receive.{Delivers}
use codelib.Ibv.Sock.Pair.{sending, Side, Pair, client_step, PairReaches, next}
use codelib.Ibv.Sock.Pair.Barrier.{Fits}
use codelib.Ibv.Sock.Pair.Exact.{latest}
use codelib.Ibv.Sock.Pair.Delivers.{PairReaches-BothFollow}
use codelib.Ibv.Sock.Pair.Calls.{SideRun, none, then, Pieces, after_call, sock_sync_data-SideRun}

module _ {calls : ℕ} {size : ℕ → ℕ} {client_data server_data : ℕ → List ℕ} where
  -- The client runs, and the server does nothing.
  client_runs :
      (server : Side) {s t : Side}
      → PairReaches calls size client_data server_data (record { client = s; server = server })
      → SideRun calls size client_data server.out s t
      → PairReaches calls size client_data server_data (record { client = t; server = server })
  client_runs server run none = run
  client_runs server run (then m ms) = client_runs server (next run (client_step m)) ms

first : List (List ℕ) → List ℕ
first [] = []
first (x ∷ xs) = x

module _ {calls : ℕ} {size : ℕ → ℕ} {client_data server_data : ℕ → List ℕ}
    (client_fits : Fits size client_data) (server_fits : Fits size server_data)
    (some_bytes : (i : ℕ) → 0 < size i) where
  -- What the newest call of the client received.
  client_received :
      (p : Pair) (c : ℕ) (filled : List ℕ) (before : List (List ℕ))
      → PairReaches calls size client_data server_data p
      → p.client.call ≡ suc c
      → p.client.returned ≡ filled ∷ before
      → p.client.overrun ≡ false
      → filled ≡ server_data c
  unfolding first latest
  client_received p c filled before run call returned clean =
      let h = PairReaches-BothFollow client_fits server_fits some_bytes run in
      ap first (sym returned ∙ (h.client_follows.exact clean).back ∙ ap (latest server_data) call)

  -- In a state that the two sides come to, let the client be before one of its calls, its socket open
  -- and its write one that takes what it is given, and let the server's bytes for this call be there,
  -- to come in any pieces of at most the size. The calls have the same sizes on both sides, none of
  -- them 0. Then the call returns 0, the two sides come to the state in which the client has
  -- returned with what is in its remote_data, and this is the server's local_data of the same call,
  -- or bytes have been stored past the end of an array.
  pub sock_sync_data-PairReaches :
      (p : Pair) (cs : List (List ℕ)) (fuel : ℕ) (fd : ℤ) (w : World)
      → PairReaches calls size client_data server_data p
      → IsOpen fd w
      → less_than (w.env.write w.tick) (size p.client.call) ≡ false
      → Delivers w.env (suc w.tick) cs
      → Pieces (size p.client.call) p.server.out p.client.taken cs
      → size p.client.call ≤ length (flatten cs)
      → length cs < fuel
      → p.client.phase ≡ sending
      → p.client.call < calls
      → w.overrun ≡ p.client.overrun
      → Post
          (λ (rc, filled) v.
            (rc ≡ pos 0)
            × ((m : ℕ) × PairReaches calls size client_data server_data (record p {
              client =
                  after_call calls size client_data p.server.out
                    (record p.client { out = p.client.out ++ client_data p.client.call })
                    filled
                    m
                    v.overrun;
            }))
            × ((filled ≡ server_data p.client.call) ⊎ (v.overrun ≡ true)))
          (λ _. ⊥)
          (sock_sync_data fuel fd (size p.client.call) (client_data p.client.call) w)
  sock_sync_data-PairReaches p cs fuel fd w run h sent del ps full enough e lt same =
      mono
        (sock_sync_data-SideRun calls size client_data p.server.out cs fuel fd w p.client h sent del
          ps full enough e lt (client_fits.fits p.client.call) same)
        λ (rc, filled) v (ok, told, (m, steps)).
          let reached = client_runs p.server run steps in
          (
            ok,
            (m, reached),
            elim (Bool-cases v.overrun) [
              | inl over ↦ inr over
              | inr clean ↦
                  inl (
                    client_received _ p.client.call filled p.client.returned reached refl refl
                      clean)
            ],
          )
