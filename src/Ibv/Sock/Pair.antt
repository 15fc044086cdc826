-- ===== src/Ibv/Sock/Pair.antt =====
-- The two sides of c/ibtest/ibv-rc.c in their calls of sock_sync_data, over a connection that loses
-- nothing. Where Ibv/Sock follows one side through every result of read and write, here both run, in
-- any order, and every call of the sockets succeeds.
pub mod Sizes
pub mod Barrier
pub mod Exact
pub mod Delivers
pub mod Progress
pub mod Overrun
pub mod Ends
pub mod Calls
pub mod Returns
mod Tests
use codelib.Base.{
  ℕ, zero, suc, ◌+◌, ◌≤◌, ◌<◌, ◌≡◌, Bool, false, ◌||◌, List, [], ◌∷◌, ◌++◌, ltb, length, take, drop,
}

-- Where a side is: before the write of its call, or in the loop that reads, with nbytes_read and what
-- is in remote_data.
pub data Phase : Type 0 where
  sending : Phase
  receiving : ℕ → List ℕ → Phase

pub record Side : Type 0 where
  -- the calls that have returned
  pub call : ℕ
  pub phase : Phase
  -- what they have received, newest first
  pub returned : List (List ℕ)
  -- all that this side has written
  pub out : List ℕ
  -- how much of the other side's it has read
  pub taken : ℕ
  -- bytes were stored past the end of remote_data
  pub overrun : Bool

abbrev pub initial_side : Side
initial_side = record {
  call = 0;
  phase = sending;
  returned = [];
  out = [];
  taken = 0;
  overrun = false;
}

pub record Pair : Type 0 where
  pub client : Side
  pub server : Side

abbrev pub initial_pair : Pair
initial_pair = record { client = initial_side; server = initial_side }

-- The number of calls that each side makes, and the xfer_size of each.
module _ (calls : ℕ) (size : ℕ → ℕ) where
  -- One statement of a side with this local_data, where the other side has written `o`. A read takes at
  -- most xfer_size of the bytes that are there; the end of the stream does not come.
  pub data SideStep (local_data : ℕ → List ℕ) (o : List ℕ) : Side → Side → Type 0 where
    write :
        {s : Side}
        → s.phase ≡ sending
        → s.call < calls
        → SideStep local_data o s
            (record s { phase = receiving 0 []; out = s.out ++ local_data s.call })
    read :
        {s : Side} {got : List ℕ} (n k : ℕ)
        → s.phase ≡ receiving n got
        → n < size s.call
        → 0 < k
        → k ≤ size s.call
        → s.taken + k ≤ length o
        → SideStep local_data o s (record s {
          phase = receiving (n + k) (got ++ take k (drop s.taken o));
          taken = s.taken + k;
          overrun = s.overrun || ltb (size s.call) (n + k);
        })
    return :
        {s : Side} {got : List ℕ} (n : ℕ)
        → s.phase ≡ receiving n got
        → size s.call ≤ n
        → SideStep local_data o s
            (record s { call = suc s.call; phase = sending; returned = got ∷ s.returned })

  pub data PairStep (client_data server_data : ℕ → List ℕ) : Pair → Pair → Type 0 where
    client_step :
        {p : Pair} {s : Side}
        → SideStep client_data p.server.out p.client s
        → PairStep client_data server_data p (record p { client = s })
    server_step :
        {p : Pair} {s : Side}
        → SideStep server_data p.client.out p.server s
        → PairStep client_data server_data p (record p { server = s })

  -- The states that the two sides come to.
  pub data PairReaches (client_data server_data : ℕ → List ℕ) : Pair → Type 0 where
    start : PairReaches client_data server_data initial_pair
    next :
        {p q : Pair}
        → PairReaches client_data server_data p
        → PairStep client_data server_data p q
        → PairReaches client_data server_data q
