-- ===== src/Conn/World/Data.antt =====
-- The structures of c/ibtest/cm-conn.c and c/ibtest/ib-conn.c, what librdmacm and libibverbs answer,
-- and the state of a run.
use codelib.Base.{ℕ, Bool, true, false, List}
use codelib.Base.Int.{ℤ}

abbrev pub Ptr : Type 0
Ptr = ℕ

abbrev pub null : Ptr
null = 0

-- `struct connection`
pub record Connection : Type 0 where
  pub qp : Ptr
  pub recv_mr : Ptr
  pub send_mr : Ptr
  pub recv_region : Ptr
  pub send_region : Ptr

-- What the code reads and writes of a `struct rdma_cm_id`.
pub record CmId : Type 0 where
  pub verbs : Ptr
  pub qp : Ptr
  pub context : Ptr

-- What the code sets of a `struct ibv_qp_init_attr`.
pub record QpInitAttr : Type 0 where
  pub send_cq : Ptr
  pub recv_cq : Ptr
  pub max_send_wr : ℕ
  pub max_recv_wr : ℕ
  pub max_send_sge : ℕ
  pub max_recv_sge : ℕ

-- What the code reads of a work completion: whether its status is IBV_WC_SUCCESS, whether its
-- opcode has the bit IBV_WC_RECV, whether its opcode is IBV_WC_SEND, and its wr_id.
pub record Wc : Type 0 where
  pub success : Bool
  pub recv : Bool
  pub send : Bool
  pub wr_id : Ptr

-- What the programs say, and what they ask for with arguments that matter.
pub data Event : Type 0 where
  -- a queue pair of a pd and its attributes
  creating_qp : Ptr → QpInitAttr → Event
  -- of so many entries
  creating_cq : ℕ → Event
  -- a pd, an address and a length
  registering : Ptr → Ptr → ℕ → Event
  -- a qp, a wr_id, an address, a length and a key
  posting_recv : Ptr → Ptr → Ptr → ℕ → ℕ → Event
  -- a qp, an address, a length and a key
  posting_send : Ptr → Ptr → ℕ → ℕ → Event
  -- the region of the message that is printed
  received : Ptr → Event
  sent : Event
  acked : Event
  -- rdma_accept of a request's id
  accepting : Ptr → Event

-- The kinds of object that the programs acquire.
pub data Kind : Type 0 where
  pd chan cq qp mr region conn cm_id ec thread context : Kind

abbrev pub kind_eq : Kind → Kind → Bool
kind_eq pd pd = true
kind_eq chan chan = true
kind_eq cq cq = true
kind_eq qp qp = true
kind_eq mr mr = true
kind_eq region region = true
kind_eq conn conn = true
kind_eq cm_id cm_id = true
kind_eq ec ec = true
kind_eq thread thread = true
kind_eq context context = true
kind_eq _ _ = false

-- What the libraries answer, at the number of calls made before.
pub record Env : Type 0 where
  pub alloc_pd : ℕ → Ptr
  pub create_comp_channel : ℕ → Ptr
  pub create_cq : ℕ → Ptr
  pub req_notify_cq : ℕ → ℤ
  -- the result and the thread
  pub pthread_create : ℕ → ℤ × Ptr
  pub create_qp : ℕ → Ptr
  -- rdma_create_qp: the result and what is in `id->qp` then
  pub rdma_create_qp : ℕ → ℤ × Ptr
  pub reg_mr : ℕ → Ptr
  pub malloc : ℕ → Ptr
  pub post_recv : ℕ → ℤ
  pub post_send : ℕ → ℤ
  pub accept : ℕ → ℤ
  pub create_event_channel : ℕ → Ptr
  -- the result and the id
  pub create_id : ℕ → ℤ × Ptr
  pub bind_addr : ℕ → ℤ
  pub listen : ℕ → ℤ
  pub lkey : Ptr → ℕ

pub record World : Type 0 where
  pub env : Env
  -- calls made so far
  pub tick : ℕ
  -- the objects held, by kind
  pub live : Kind → List Ptr
  -- an object was used or given back that was not held
  pub misuse : Bool
  pub conns : Ptr → Connection
  pub ids : Ptr → CmId
  -- newest first
  pub log : List Event
