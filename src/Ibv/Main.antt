-- ===== src/Ibv/Main.antt =====
-- main of c/ibtest/ibv-rc.c.
pub mod Arguments
pub mod Session
pub mod Together
pub mod Steps
pub mod Returns
pub mod Trace
pub mod Lifecycle
use Prim.Native.String.{String}
use codelib.Base.{
  ℕ, ◌%◌, ◌^◌, Bool, true, false, not, Option, none, some, List, [], ◌∷◌, ◌==◌, if◌then◌else◌,
}
use codelib.Base.Int.{ℤ, pos, negsuc, is_negative, is_zero, to_int}
use codelib.Ibv.World.{
  null, HeapString, Config, Opcode, Cmd, pure, ◌>>=◌, ◌>>◌, call, ask, set_config, acquire, release,
  send, rdma_read, rdma_write, name,
}
use codelib.Ibv.Sock.{sock_sync_data, poll_completion}
use codelib.Ibv.Resources.{
  rdma_msg_read, rdma_msg_write, strcpy_buf, resources_init, resources_create, resources_destroy,
}
use codelib.Ibv.Connect.{connect_qp, post_send}

-- What `getopt_long` finds: an option, with the number that `strtoul` or `strtol` makes of its
-- argument as 64 bits, or the text.
pub data Flag : Type 0 where
  port : ℕ → Flag
  ib_dev : String → Flag
  ib_port : ℕ → Flag
  gid_idx : ℕ → Flag
  unknown : Flag

-- One round of the loop over the options: whether it goes on.
parse_flag : Flag → Cmd Bool
parse_flag (port n) = do set_config (λ c. record c { tcp_port = n % 2 ^ 32 }); pure true
parse_flag (ib_dev text) = do
  p ← acquire name λ e. e.strdup
  set_config λ c. record c {
    dev_name = if p == null then none else some (record { address = p; text = text });
  }
  pure true
parse_flag (ib_port n) = do
  set_config λ c. record c { ib_port = to_int n }
  pure (not (is_negative (to_int n)))
parse_flag (gid_idx n) = do
  set_config λ c. record c { gid_idx = to_int n }
  pure (not (is_negative (to_int n)))
parse_flag unknown = pure false

parse_flags : List Flag → Cmd Bool
unfolding parse_flag
parse_flags [] = pure true
parse_flags (f ∷ fs) = do more ← parse_flag f; if more then parse_flags fs else pure false

-- The arguments behind the options: at most one, the server.
parse_rest : List String → Cmd Bool
parse_rest [] = pure true
parse_rest (s ∷ []) = do set_config (λ c. record c { server_name = some s }); pure true
parse_rest (s ∷ t ∷ r) = pure false

-- Whether the command line is accepted.
unfoldable pub parse_args : List Flag → List String → Cmd Bool
unfolding parse_flags parse_rest
parse_args flags rest = do fine ← parse_flags flags; if fine then parse_rest rest else pure false

-- `if (step) goto main_exit;`: the number is what `rc` is then.
pub or_exit : Cmd ℤ → Cmd ℕ → Cmd ℕ
or_exit step next = do r ← step; if is_zero r then next else pure 1

pub is_client : Cmd Bool
is_client = do c ← ask λ w. w.config; elim c.server_name [ none ↦ pure false | some s ↦ pure true ]

pub sync : ℕ → ℕ → Cmd ℤ
sync fuel c = do
  fd ← ask λ w. w.res.sockfd
  (rc, reply) ← sock_sync_data fuel fd 1 (c ∷ [])
  pure rc

-- The server posts the send, the client nothing.
pub server_send : Cmd ℤ
server_send = do client ← is_client; if client then pure (pos 0) else post_send send

pub server_text : Cmd (Unit {0})
server_text = do client ← is_client; if client then pure tt else strcpy_buf rdma_msg_read

-- The client's RDMA read and write.
client_rdma : ℕ → Cmd ℕ → Cmd ℕ
client_rdma fuel next = do
  client ← is_client
  if not client
      then next
      else or_exit (post_send rdma_read) (
          or_exit (poll_completion fuel) (
            strcpy_buf rdma_msg_write
            >> or_exit (post_send rdma_write) (or_exit (poll_completion fuel) next)))

-- From connect_qp to main_exit: `rc`.
pub session : ℕ → Cmd ℕ
session fuel = or_exit (connect_qp fuel) (
    or_exit server_send (
      or_exit (poll_completion fuel) (
        server_text
        >> or_exit (sync fuel b'R') (client_rdma fuel (or_exit (sync fuel b'W') (pure 0))))))

pub run_test : ℕ → Cmd ℕ
run_test fuel = or_exit resources_create (session fuel)

-- `free(config.dev_name)`
free_name : Cmd (Unit {0})
free_name = do
  c ← ask λ w. w.config
  elim c.dev_name [ none ↦ pure tt | some s ↦ (do release name s.address; pure tt) ]

main_exit : ℕ → Cmd ℕ
unfolding free_name
main_exit rc = do r ← resources_destroy; free_name; pure (if is_zero r then rc else 1)

-- The exit status.
unfoldable pub main : ℕ → List Flag → List String → Cmd ℕ
unfolding run_test session server_send server_text client_rdma is_client or_exit sync main_exit
main fuel flags rest = do
  fine ← parse_args flags rest
  if not fine then pure 1 else do resources_init; rc ← run_test fuel; main_exit rc
