-- ===== src/Ibv/Sock.antt =====
-- sock_connect, sock_sync_data and poll_completion of c/ibtest/ibv-rc.c.
pub mod Descriptors
pub mod Exchange
pub mod Receive
pub mod Poll
pub mod Pair
pub mod Told
use Prim.Native.String.{String}
use codelib.Base.{
  ℕ, zero, suc, ◌+◌, ◌-◌, ◌*◌, ◌/◌, ◌%◌, ◌^◌, Bool, true, false, not, ◌&&◌, Option, none, some,
  List, [], ◌∷◌, ◌++◌, ltb, ◌==◌, if◌then◌else◌, length, take,
}
use codelib.Base.Int.{ℤ, pos, negsuc, minus_one, is_negative, is_zero, is_minus_one}
use codelib.Ibv.World.{
  Env, Cmd, out_of_fuel, pure, ◌>>=◌, ◌>>◌, call, ask, modify, note, require, require_room, uses,
  release, exit, set_live, sock, cq, connecting, binding, listening, wrote,
}

-- A descriptor that a call was given; a negative one is none that is open.
abbrev pub uses_fd : ℤ → Cmd (Unit {0})
uses_fd (pos fd) = uses sock fd
uses_fd (negsuc n) = require λ _. false

abbrev pub close_fd : ℤ → Cmd ℤ
close_fd (pos fd) = release sock fd
close_fd (negsuc n) = do require (λ _. false); pure minus_one

-- A descriptor that a call returns is held from then on.
abbrev pub hold_fd : ℤ → Cmd (Unit {0})
hold_fd (pos fd) = modify λ w. set_live sock (fd ∷ w.live sock) w
hold_fd (negsuc n) = pure tt

abbrev pub acquire_fd : (Env → ℕ → ℤ) → Cmd ℤ
acquire_fd f = do fd ← call f; hold_fd fd; pure fd

-- The address is the same on both sides, whatever the server's name.
abbrev pub address : String
address = "10.1.1.5"

connect_to : ℤ → ℕ → Cmd ℤ
connect_to sockfd port = do
  uses_fd sockfd
  note (connecting address port)
  tmp ← call λ e. e.connect
  if is_negative tmp then (do close_fd sockfd; pure minus_one) else pure sockfd

listen_on : ℤ → ℕ → Cmd ℤ
listen_on sockfd port = do
  uses_fd sockfd
  note (binding address port)
  tmp ← call λ e. e.bind
  if is_negative tmp
      then (do close_fd sockfd; pure minus_one)
      else do note (listening 1); acquire_fd λ e. e.accept

unfoldable pub sock_connect : Option String → ℕ → Cmd ℤ
unfolding connect_to listen_on
sock_connect servername port = do
  sockfd ← acquire_fd λ e. e.socket
  if is_minus_one sockfd then exit 1 else do
    e ← ask λ w. w.env
    elim servername [
      | some name ↦ connect_to sockfd (e.htons (port % 2 ^ 16))
      | none ↦ listen_on sockfd (e.htons (port % 2 ^ 16))
    ]

-- `x < n` for an `int` x.
abbrev pub less_than : ℤ → ℕ → Bool
less_than (pos m) n = ltb m n
less_than (negsuc m) n = true

-- `n + x` for an `int` x that the tests above it leave.
abbrev pub plus : ℕ → ℤ → ℕ
plus n (pos m) = n + m
plus n (negsuc m) = n - suc m

-- `read(sockfd, remote_data + nbytes_read, xfer_size)`: the result, and what is filled of
-- `remote_data` then, where `got` is what was filled before. There is room for `xfer_size` bytes.
unfoldable pub recv_some : ℤ → ℕ → List ℕ → Cmd (ℤ × List ℕ)
recv_some sockfd xfer_size got = do
  uses_fd sockfd
  (tmp, delivered) ← call λ e. e.read
  require_room (λ _. length (got ++ delivered)) (λ _. xfer_size)
  pure (tmp, got ++ delivered)

-- The loop that receives.
unfoldable pub recv_loop : ℕ → ℤ → ℕ → ℕ → List ℕ → Cmd (ℤ × List ℕ)
recv_loop zero sockfd xfer_size nbytes_read got = λ w. out_of_fuel w
recv_loop (suc fuel) sockfd xfer_size nbytes_read got =
    if not (ltb nbytes_read xfer_size) then pure (pos 0, got) else do
      (tmp, filled) ← recv_some sockfd xfer_size got
      if is_negative tmp
          then pure (minus_one, filled)
          else if is_minus_one tmp
          then pure (pos 0, filled)
          else recv_loop fuel sockfd xfer_size (plus nbytes_read tmp) filled

-- The result, and what `remote_data` holds.
unfoldable pub sock_sync_data : ℕ → ℤ → ℕ → List ℕ → Cmd (ℤ × List ℕ)
sock_sync_data fuel sockfd xfer_size local_data = do
  uses_fd sockfd
  note (wrote (take xfer_size local_data))
  nbytes_write ← call λ e. e.write
  if less_than nbytes_write xfer_size
      then pure (minus_one, [])
      else recv_loop fuel sockfd xfer_size 0 []

abbrev pub max_poll_cq_timeout : ℕ
max_poll_cq_timeout = 2000

-- Milliseconds of a `struct timeval`, an `unsigned long`.
abbrev pub msec : ℕ × ℕ → ℕ
msec (sec, usec) = (sec * 1000 + usec / 1000) % 2 ^ 64

-- `a - b` of two `unsigned long`.
abbrev pub sub_ulong : ℕ → ℕ → ℕ
sub_ulong a b = (a + 2 ^ 64 - b) % 2 ^ 64

-- One poll, and the time after it: the result, the status of the completion, milliseconds.
unfoldable pub poll_once : Cmd (ℤ × ℕ × ℕ)
poll_once = do
  q ← ask λ w. w.res.cq
  uses cq q
  (poll_result, status) ← call λ e. e.poll_cq
  cur_time ← call λ e. e.gettimeofday
  pure (poll_result, status, msec cur_time)

-- The loop's last poll: its result and the status of the completion.
unfoldable pub poll_loop : ℕ → ℕ → Cmd (ℤ × ℕ)
poll_loop zero start_time_msec = λ w. out_of_fuel w
poll_loop (suc fuel) start_time_msec = do
  (poll_result, status, cur_time_msec) ← poll_once
  if is_zero poll_result && ltb (sub_ulong cur_time_msec start_time_msec) max_poll_cq_timeout
      then poll_loop fuel start_time_msec
      else pure (poll_result, status)

-- IBV_WC_SUCCESS
abbrev pub wc_success : ℕ
wc_success = 0

unfoldable pub poll_completion : ℕ → Cmd ℤ
poll_completion fuel = do
  cur_time ← call λ e. e.gettimeofday
  (poll_result, status) ← poll_loop fuel (msec cur_time)
  pure (
      if is_negative poll_result
      then minus_one
      else if is_zero poll_result
      then minus_one
      else if status == wc_success
      then pos 0
      else minus_one)
