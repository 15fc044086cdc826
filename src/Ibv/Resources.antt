-- ===== src/Ibv/Resources.antt =====
-- resources_init, resources_create and resources_destroy of c/ibtest/ibv-rc.c.
pub mod Release
pub mod Stages
pub mod Create
use Prim.Native.Char.{code}
use Prim.Native.String.{String}
use text.Mathlib.Text.{◌==◌ as str_eq}
use codelib.Base.{
  ℕ, suc, ◌+◌, Bool, true, false, not, Option, none, some, List, [], ◌∷◌, ◌++◌, ◌==◌, if◌then◌else◌,
  length, drop, replicate,
}
use codelib.Base.Int.{ℤ, pos, negsuc, minus_one, is_negative, is_zero}
use codelib.Ibv.World.{
  Ptr, null, HeapString, Config, ConData, Resources, Kind, Cmd, pure, ◌>>=◌, ◌>>◌, call, ask,
  modify, set_res, set_config, note, require, require_room, uses, hold, acquire, release, dev_list,
  context, pd, cq, buf, mr, qp, name, creating_cq, registering, creating_qp,
}
use codelib.Ibv.Sock.{sock_connect, close_fd}

-- The characters of a string.
abbrev pub codes : String → List ℕ
codes String.[] = []
codes (String.◌∷◌ c s) = code c ∷ codes s

abbrev pub msg : String
msg = "SEND operation      "

abbrev pub rdma_msg_read : String
rdma_msg_read = "RDMA read operation "

abbrev pub rdma_msg_write : String
rdma_msg_write = "RDMA write operation"

-- `strlen(MSG) + 1`
abbrev pub msg_size : ℕ
msg_size = length (codes msg) + 1

abbrev pub no_con_data : ConData
no_con_data = record { addr = 0; rkey = 0; qp_num = 0; lid = 0; gid = replicate 16 0 }

abbrev pub no_resources : Resources
no_resources = record {
  lid = 0;
  remote_props = no_con_data;
  ib_ctx = null;
  pd = null;
  cq = null;
  qp = null;
  mr = null;
  buf = null;
  sockfd = minus_one;
}

unfoldable pub resources_init : Cmd (Unit {0})
resources_init = set_res λ _. no_resources

-- `strcpy(res->buf, s)`: the characters and the terminator, within the buffer.
unfoldable pub strcpy_buf : String → Cmd (Unit {0})
strcpy_buf s = do
  q ← ask λ w. w.res.buf
  uses buf q
  require_room (λ _. length (codes s) + 1) (λ w. length w.bytes)
  modify λ w. record w { bytes = codes s ++ 0 ∷ drop (length (codes s) + 1) w.bytes }

-- The connection over TCP.
pub connect_peer : Cmd ℤ
connect_peer = do
  c ← ask λ w. w.config
  fd ← sock_connect c.server_name c.tcp_port
  set_res λ r. record r { sockfd = fd }
  pure (if is_negative fd then minus_one else pos 0)

-- `if (!config.dev_name) config.dev_name = strdup(name)`
default_name : String → Cmd (Unit {0})
default_name device = do
  c ← ask λ w. w.config
  elim c.dev_name [
    | some s ↦ pure tt
    | none ↦ (do
      p ← acquire name λ e. e.strdup
      if p == null
          then pure tt
          else set_config λ k. record k { dev_name = some (record { address = p; text = device }) })
  ]

-- `strcmp(name, config.dev_name) == 0`, which reads through the pointer.
same_name : String → Cmd Bool
same_name device = do
  c ← ask λ w. w.config
  elim c.dev_name [
    | some s ↦ pure (str_eq device s.text)
    | none ↦ (do require (λ _. false); pure false)
  ]

-- The loop over the devices; NULL if none has the name.
find_loop : List (Ptr × String) → Cmd Ptr
unfolding default_name same_name
find_loop [] = pure null
find_loop ((device, text) ∷ rest) = do
  default_name text
  found ← same_name text
  if found then pure device else find_loop rest

-- The result, the list of devices and the device that is wanted.
pub find_device : Cmd (ℤ × Ptr × Ptr)
unfolding find_loop
find_device = do
  (dl, devices) ← call λ e. e.get_device_list
  hold dev_list dl
  if dl == null
      then pure (minus_one, null, null)
      else if length devices == 0
      then pure (minus_one, dl, null)
      else do
        dev ← find_loop devices
        if dev == null then pure (minus_one, dl, null) else pure (pos 0, dl, dev)

-- The result, and the list of devices if it is still held.
pub open_device : Ptr → Ptr → Cmd (ℤ × Ptr)
open_device dl dev = do
  uses dev_list dl
  ctx ← acquire context λ e. e.open_device
  set_res λ r. record r { ib_ctx = ctx }
  if ctx == null then pure (minus_one, dl) else do
    release dev_list dl
    uses context ctx
    (failed, port_lid, gids) ← call λ e. e.query_port
    set_res λ r. record r { lid = port_lid }
    pure (if is_zero failed then (pos 0, null) else (minus_one, null))

-- The protection domain and the completion queue.
pub allocate_queue : Cmd ℤ
allocate_queue = do
  r ← ask λ w. w.res
  uses context r.ib_ctx
  p ← acquire pd λ e. e.alloc_pd
  set_res λ r. record r { pd = p }
  if p == null then pure minus_one else do
    uses context r.ib_ctx
    note (creating_cq 1)
    q ← acquire cq λ e. e.create_cq
    set_res λ r. record r { cq = q }
    pure (if q == null then minus_one else pos 0)

-- The buffer, with the server's message in it.
pub allocate_buffer : Cmd ℤ
unfolding strcpy_buf
allocate_buffer = do
  b ← acquire buf λ e. e.malloc
  set_res λ r. record r { buf = b }
  if b == null then pure minus_one else do
    modify λ w. record w { bytes = replicate msg_size 0 }
    c ← ask λ w. w.config
    elim c.server_name [ none ↦ strcpy_buf msg | some s ↦ pure tt ]
    pure (pos 0)

-- The memory region over the buffer, and the queue pair.
pub allocate_pair : Cmd ℤ
allocate_pair = do
  r ← ask λ w. w.res
  uses pd r.pd
  uses buf r.buf
  note (registering r.buf msg_size)
  m ← acquire mr λ e. e.reg_mr
  set_res λ r. record r { mr = m }
  if m == null then pure minus_one else do
    uses pd r.pd
    uses cq r.cq
    note (creating_qp r.cq 1 1 1 1)
    t ← acquire qp λ e. e.create_qp
    set_res λ r. record r { qp = t }
    pure (if t == null then minus_one else pos 0)

allocate : Cmd ℤ
unfolding allocate_queue allocate_buffer allocate_pair
allocate = do
  ret ← allocate_queue
  if not (is_zero ret)
      then pure ret
      else do ret ← allocate_buffer; if not (is_zero ret) then pure ret else allocate_pair

-- `if (res->x) { release(res->x); res->x = NULL; }`
abbrev pub drop_object : Kind → (Resources → Ptr) → (Resources → Resources) → Cmd (Unit {0})
drop_object k field cleared = do
  r ← ask λ w. w.res
  if field r == null then pure tt else do release k (field r); set_res cleared

abbrev drop_list : Ptr → Cmd (Unit {0})
drop_list dl = if dl == null then pure tt else do release dev_list dl; pure tt

abbrev drop_socket : Cmd (Unit {0})
drop_socket = do
  r ← ask λ w. w.res
  if is_negative r.sockfd
      then pure tt
      else do close_fd r.sockfd; set_res λ r. record r { sockfd = minus_one }

-- What follows `resources_create_exit` where `ret` is not zero.
cleanup : Ptr → Cmd (Unit {0})
cleanup dl = do
  drop_object qp (λ r. r.qp) (λ r. record r { qp = null })
  drop_object mr (λ r. r.mr) (λ r. record r { mr = null })
  drop_object buf (λ r. r.buf) (λ r. record r { buf = null })
  drop_object cq (λ r. r.cq) (λ r. record r { cq = null })
  drop_object pd (λ r. r.pd) (λ r. record r { pd = null })
  drop_object context (λ r. r.ib_ctx) (λ r. record r { ib_ctx = null })
  drop_list dl
  drop_socket

unfoldable pub finish : ℤ → Ptr → Cmd ℤ
unfolding cleanup
finish ret dl = if is_zero ret then pure ret else do cleanup dl; pure ret

-- `if (failed) { ret = -1; goto resources_create_exit; }`
unfoldable pub go_on : ℤ → Ptr → Cmd ℤ → Cmd ℤ
go_on ret dl next = if is_zero ret then next else finish ret dl

unfoldable pub resources_create : Cmd ℤ
unfolding connect_peer find_device open_device allocate
resources_create = do
  ret1 ← connect_peer
  go_on ret1 null do
    (ret2, dl, dev) ← find_device
    go_on ret2 dl
        do (ret3, dl) ← open_device dl dev; go_on ret3 dl do ret4 ← allocate; finish ret4 null

-- `if (res->x) { if (release(res->x)) ret = -1; }`
abbrev pub destroy_object : Kind → Ptr → ℤ → Cmd ℤ
destroy_object k h ret =
    if h == null
    then pure ret
    else do rc ← release k h; pure (if is_zero rc then ret else minus_one)

-- `free` returns nothing.
abbrev pub destroy_buf : Ptr → ℤ → Cmd ℤ
destroy_buf h ret = if h == null then pure ret else do release buf h; pure ret

abbrev pub destroy_socket : ℤ → ℤ → Cmd ℤ
destroy_socket fd ret =
    if is_negative fd
    then pure ret
    else do rc ← close_fd fd; pure (if is_zero rc then ret else minus_one)

unfoldable pub resources_destroy : Cmd ℤ
resources_destroy = do
  r ← ask λ w. w.res
  ret ← destroy_object qp r.qp (pos 0)
  ret ← destroy_object mr r.mr ret
  ret ← destroy_buf r.buf ret
  ret ← destroy_object cq r.cq ret
  ret ← destroy_object pd r.pd ret
  ret ← destroy_object context r.ib_ctx ret
  destroy_socket r.sockfd ret
