-- ===== src/Ibv/Connect.antt =====
-- The moves of the queue pair, the work requests and connect_qp of c/ibtest/ibv-rc.c.
pub mod Keeps
pub mod Data
pub mod Order
pub mod Handshake
pub mod Peer
pub mod Returns
use codelib.Base.{
  ℕ, zero, suc, ◌+◌, ◌*◌, ◌/◌, ◌%◌, ◌^◌, Bool, true, false, not, Option, none, some, List, [], ◌∷◌,
  ◌++◌, ◌==◌, if◌then◌else◌, take, drop, replicate,
}
use codelib.Base.Int.{ℤ, pos, negsuc, minus_one, is_negative, is_zero, is_minus_one}
use codelib.Ibv.World.{
  Ptr, ConData, Config, Opcode, QpAttr, Sge, Env, Cmd, pure, ◌>>=◌, ◌>>◌, call, ask, set_res, note,
  uses, buf, mr, qp, init, rtr, rts, send, rdma_read, rdma_write, modified, posted_send,
  posted_recv,
}
use codelib.Ibv.Sock.{sock_sync_data}
use codelib.Ibv.Resources.{msg_size}

-- `if (ibv_modify_qp(...) < 0) return -1; return 0;`
modify_qp_to : QpAttr → Ptr → Cmd ℤ
modify_qp_to attr q = do
  uses qp q
  rc ← call λ e. e.modify_qp
  note (modified q attr)
  pure (if is_negative rc then minus_one else pos 0)

unfoldable pub init_attr : Config → QpAttr
init_attr c = init (record { port_num = c.ib_port; pkey_index = 0 })

unfoldable pub modify_qp_to_init : Ptr → Cmd ℤ
unfolding modify_qp_to init_attr
modify_qp_to_init q = do c ← ask λ w. w.config; modify_qp_to (init_attr c) q

unfoldable pub rtr_attr : Config → ℕ → ℕ → List ℕ → QpAttr
rtr_attr c remote_qp_num dlid dgid = rtr (record {
  path_mtu = 256;
  dest_qp_num = remote_qp_num;
  rq_psn = 0;
  max_dest_rd_atomic = 1;
  min_rnr_timer = 0x12;
  dlid = dlid;
  sl = 0;
  src_path_bits = 0;
  port_num = if is_negative c.gid_idx then c.ib_port else pos 1;
  grh =
      if is_negative c.gid_idx
      then none
      else some (record {
        dgid = take 16 dgid;
        flow_label = 0;
        hop_limit = 1;
        sgid_index = c.gid_idx;
        traffic_class = 0;
      });
})

unfoldable pub modify_qp_to_rtr : Ptr → ℕ → ℕ → List ℕ → Cmd ℤ
unfolding modify_qp_to rtr_attr
modify_qp_to_rtr q remote_qp_num dlid dgid = do
  c ← ask λ w. w.config
  modify_qp_to (rtr_attr c remote_qp_num dlid dgid) q

abbrev pub rts_attr : QpAttr
rts_attr =
    rts (record { timeout = 0x12; retry_cnt = 6; rnr_retry = 0; sq_psn = 0; max_rd_atomic = 1 })

unfoldable pub modify_qp_to_rts : Ptr → Cmd ℤ
unfolding modify_qp_to
modify_qp_to_rts q = modify_qp_to rts_attr q

-- The scatter entry over the whole buffer.
abbrev pub buffer_sge : Env → Ptr → Ptr → Sge
buffer_sge e b m = record { addr = b; size = msg_size; lkey = e.lkey m }

-- What a request names on the remote side.
abbrev pub remote_of : Opcode → ConData → Option (ℕ × ℕ)
remote_of send d = none
remote_of rdma_read d = some (d.addr, d.rkey)
remote_of rdma_write d = some (d.addr, d.rkey)

unfoldable pub post_send : Opcode → Cmd ℤ
post_send opcode = do
  w ← ask λ w. w
  uses mr w.res.mr
  uses buf w.res.buf
  uses qp w.res.qp
  ret ← call λ e. e.post_send
  note (
      posted_send opcode (buffer_sge w.env w.res.buf w.res.mr)
        (remote_of opcode w.res.remote_props))
  pure ret

unfoldable pub post_receive : Cmd ℤ
post_receive = do
  w ← ask λ w. w
  uses mr w.res.mr
  uses buf w.res.buf
  uses qp w.res.qp
  ret ← call λ e. e.post_recv
  note (posted_recv (buffer_sge w.env w.res.buf w.res.mr))
  pure ret

-- The bytes of an unsigned integer of n bytes in memory, on a little-endian machine.
unfoldable pub store_uint : ℕ → ℕ → List ℕ
store_uint zero x = []
store_uint (suc n) x = (x % 256) ∷ store_uint n (x / 256)

unfoldable pub load_uint : ℕ → List ℕ → ℕ
load_uint zero bs = 0
load_uint (suc n) [] = 0
load_uint (suc n) (b ∷ bs) = b + 256 * load_uint n bs

-- sizeof(struct cm_con_data_t), which is packed
abbrev pub con_data_size : ℕ
con_data_size = 34

-- The bytes of a `struct cm_con_data_t`, and the structure of some bytes.
unfoldable pub store_con_data : ConData → List ℕ
unfolding store_uint
store_con_data d =
    store_uint 8 d.addr
    ++ (store_uint 4 d.rkey ++ (store_uint 4 d.qp_num ++ (store_uint 2 d.lid ++ d.gid)))

unfoldable pub load_con_data : List ℕ → ConData
unfolding load_uint
load_con_data bs = record {
  addr = load_uint 8 bs;
  rkey = load_uint 4 (drop 8 bs);
  qp_num = load_uint 4 (drop 12 bs);
  lid = load_uint 2 (drop 16 bs);
  gid = take 16 (drop 18 bs);
}

-- Every number of the structure put in network order, and back.
abbrev pub to_network : Env → ConData → ConData
to_network e d = record {
  addr = e.htonll d.addr;
  rkey = e.htonl d.rkey;
  qp_num = e.htonl d.qp_num;
  lid = e.htons d.lid;
  gid = d.gid;
}

abbrev pub from_network : Env → ConData → ConData
from_network e d = record {
  addr = e.ntohll d.addr;
  rkey = e.ntohl d.rkey;
  qp_num = e.ntohl d.qp_num;
  lid = e.ntohs d.lid;
  gid = d.gid;
}

-- What this side tells the other.
abbrev pub local_con_data : Env → Ptr → Ptr → Ptr → ℕ → List ℕ → ConData
local_con_data e b m q port_lid my_gid = record {
  addr = b;
  rkey = e.rkey m;
  qp_num = e.qp_num q;
  lid = port_lid;
  gid = my_gid;
}

-- The gid of this side: queried where an index is configured, and zeros otherwise.
pub query_my_gid : Cmd (ℤ × List ℕ)
query_my_gid = do
  c ← ask λ w. w.config
  if is_negative c.gid_idx then pure (pos 0, replicate 16 0) else call λ e. e.query_gid

-- The exchange of the connection data; the remote side's is stored in `res`.
pub exchange : ℕ → List ℕ → Cmd ℤ
exchange fuel my_gid = do
  w ← ask λ w. w
  let d = local_con_data w.env w.res.buf w.res.mr w.res.qp w.res.lid my_gid
  (rc, reply) ← sock_sync_data fuel w.res.sockfd con_data_size (store_con_data (to_network w.env d))
  if is_minus_one rc then pure minus_one else do
    set_res λ r. record r { remote_props = from_network w.env (load_con_data reply) }
    pure (pos 0)

-- `if (config.server_name) post_receive(res)`
client_receive : Cmd ℤ
client_receive = do
  c ← ask λ w. w.config
  elim c.server_name [ none ↦ pure (pos 0) | some s ↦ post_receive ]

-- From INIT to RTS. A result that is not -1 goes on; the last one is returned.
pub bring_up : Cmd ℤ
unfolding client_receive
bring_up = do
  r ← ask λ w. w.res
  ret ← modify_qp_to_init r.qp
  if is_minus_one ret then pure ret else do
    ret ← client_receive
    if is_minus_one ret then pure ret else do
      ret ← modify_qp_to_rtr r.qp r.remote_props.qp_num r.remote_props.lid r.remote_props.gid
      if is_minus_one ret then pure ret else modify_qp_to_rts r.qp

unfoldable pub connect_qp : ℕ → Cmd ℤ
unfolding query_my_gid exchange bring_up
connect_qp fuel = do
  (ret, my_gid) ← query_my_gid
  if is_minus_one ret then pure ret else do
    ret ← exchange fuel my_gid
    if is_minus_one ret then pure ret else do
      ret ← bring_up
      if is_minus_one ret then pure ret else do
        fd ← ask λ w. w.res.sockfd
        (rc, c) ← sock_sync_data fuel fd 1 (b'Q' ∷ [])
        pure (if is_zero rc then ret else minus_one)
