-- ===== src/Ibv/World/Data.antt =====
-- The structures that c/ibtest/ibv-rc.c keeps, what the libraries answer, and the state of a run.
use Prim.Native.String.{String}
use codelib.Base.{ℕ, Bool, true, false, Option, List}
use codelib.Base.Int.{ℤ}

-- A pointer; 0 is NULL.
abbrev pub Ptr : Type 0
Ptr = ℕ

abbrev pub null : Ptr
null = 0

-- A string on the heap and its address.
pub record HeapString : Type 0 where
  pub address : Ptr
  pub text : String

-- `struct config_t`
pub record Config : Type 0 where
  pub dev_name : Option HeapString
  pub server_name : Option String
  pub tcp_port : ℕ
  pub ib_port : ℤ
  pub gid_idx : ℤ

-- `struct cm_con_data_t`
pub record ConData : Type 0 where
  pub addr : ℕ
  pub rkey : ℕ
  pub qp_num : ℕ
  pub lid : ℕ
  pub gid : List ℕ

-- `struct resources`; of `port_attr` only the lid is read, and `device_attr` is never used.
pub record Resources : Type 0 where
  pub lid : ℕ
  pub remote_props : ConData
  pub ib_ctx : Ptr
  pub pd : Ptr
  pub cq : Ptr
  pub qp : Ptr
  pub mr : Ptr
  pub buf : Ptr
  pub sockfd : ℤ

-- The opcodes that the code posts, of `enum ibv_wr_opcode`.
pub data Opcode : Type 0 where
  send rdma_read rdma_write : Opcode

-- `struct ibv_qp_attr` as the code fills it for each move. The access flags of the first are those
-- of the memory region: local write, remote read, remote write.
pub record InitAttr : Type 0 where
  pub port_num : ℤ
  pub pkey_index : ℕ

-- `ah_attr.grh`, for an address with a gid.
pub record GlobalRoute : Type 0 where
  pub dgid : List ℕ
  pub flow_label : ℕ
  pub hop_limit : ℕ
  pub sgid_index : ℤ
  pub traffic_class : ℕ

pub record RtrAttr : Type 0 where
  -- in bytes: IBV_MTU_256 is 256
  pub path_mtu : ℕ
  pub dest_qp_num : ℕ
  pub rq_psn : ℕ
  pub max_dest_rd_atomic : ℕ
  pub min_rnr_timer : ℕ
  pub dlid : ℕ
  pub sl : ℕ
  pub src_path_bits : ℕ
  pub port_num : ℤ
  -- there where `is_global` is 1
  pub grh : Option GlobalRoute

pub record RtsAttr : Type 0 where
  pub timeout : ℕ
  pub retry_cnt : ℕ
  pub rnr_retry : ℕ
  pub sq_psn : ℕ
  pub max_rd_atomic : ℕ

pub data QpAttr : Type 0 where
  init : InitAttr → QpAttr
  rtr : RtrAttr → QpAttr
  rts : RtsAttr → QpAttr

-- `struct ibv_sge`, and what a send request names on the remote side.
pub record Sge : Type 0 where
  pub addr : ℕ
  pub size : ℕ
  pub lkey : ℕ

-- What the program asks of the hardware or of the peer, in the log of a run.
pub data Event : Type 0 where
  -- the address and the port, in network order, of `connect` or `bind`
  connecting : String → ℕ → Event
  binding : String → ℕ → Event
  listening : ℕ → Event
  wrote : List ℕ → Event
  -- a completion queue of so many entries
  creating_cq : ℕ → Event
  -- a memory region over so many bytes, with the access flags above
  registering : Ptr → ℕ → Event
  -- a reliable queue pair: its completion queue, and the most requests and entries to send and to
  -- receive
  creating_qp : Ptr → ℕ → ℕ → ℕ → ℕ → Event
  modified : Ptr → QpAttr → Event
  -- the one entry, and the remote address and key; signalled, with the number 0
  posted_send : Opcode → Sge → Option (ℕ × ℕ) → Event
  posted_recv : Sge → Event

-- The kinds of object that the program acquires and must give back.
pub data Kind : Type 0 where
  sock dev_list context pd cq buf mr qp name chan : Kind

abbrev pub kind_eq : Kind → Kind → Bool
kind_eq sock sock = true
kind_eq dev_list dev_list = true
kind_eq context context = true
kind_eq pd pd = true
kind_eq cq cq = true
kind_eq buf buf = true
kind_eq mr mr = true
kind_eq qp qp = true
kind_eq name name = true
kind_eq chan chan = true
kind_eq _ _ = false

-- What the C library, the sockets and libibverbs answer, at the number of calls made before.
pub record Env : Type 0 where
  pub socket : ℕ → ℤ
  pub connect : ℕ → ℤ
  pub bind : ℕ → ℤ
  pub accept : ℕ → ℤ
  pub close : ℕ → ℤ
  -- the number of bytes taken
  pub write : ℕ → ℤ
  -- the result, and the bytes delivered
  pub read : ℕ → ℤ × List ℕ
  -- seconds and microseconds
  pub gettimeofday : ℕ → ℕ × ℕ
  pub strdup : ℕ → Ptr
  pub malloc : ℕ → Ptr
  -- the list's address, and the address and name of each device
  pub get_device_list : ℕ → Ptr × List (Ptr × String)
  pub open_device : ℕ → Ptr
  pub query_device : ℕ → ℤ
  -- the result, the lid and gid_tbl_len
  pub query_port : ℕ → ℤ × ℕ × ℕ
  pub query_gid : ℕ → ℤ × List ℕ
  pub alloc_pd : ℕ → Ptr
  pub create_comp_channel : ℕ → Ptr
  pub create_cq : ℕ → Ptr
  pub reg_mr : ℕ → Ptr
  pub create_qp : ℕ → Ptr
  pub modify_qp : ℕ → ℤ
  pub post_send : ℕ → ℤ
  pub post_recv : ℕ → ℤ
  -- the number of completions and the status of the first
  pub poll_cq : ℕ → ℤ × ℕ
  -- the result of giving an object of a kind back
  pub release : Kind → ℕ → ℤ
  -- fields of library objects
  pub lkey : Ptr → ℕ
  pub rkey : Ptr → ℕ
  pub qp_num : Ptr → ℕ
  -- byte order
  pub htonll : ℕ → ℕ
  pub ntohll : ℕ → ℕ
  pub htonl : ℕ → ℕ
  pub ntohl : ℕ → ℕ
  pub htons : ℕ → ℕ
  pub ntohs : ℕ → ℕ

pub record World : Type 0 where
  pub env : Env
  -- calls made so far
  pub tick : ℕ
  -- the objects held, by kind
  pub live : Kind → List ℕ
  -- an object was used or given back that was not held, or given back before one that depends
  -- on it, or NULL was read through
  pub misuse : Bool
  -- bytes were stored past the end of an array
  pub overrun : Bool
  pub config : Config
  pub res : Resources
  -- the bytes at `res.buf`
  pub bytes : List ℕ
  -- newest first
  pub log : List Event
