-- ===== src/Conn/Samples.antt =====
-- Libraries for the runs of cm-conn.c and ib-conn.c, and where these start.
use codelib.Base.{◌+◌, ◌==◌, if◌then◌else◌, false, List, [], ◌∷◌}
use codelib.Base.Int.{pos}
use codelib.Conn.World.{Ptr, null, Env, World, Kind, qp, cm_id}

-- Every call gets what it asks for.
abbrev pub libraries : Env
libraries = record {
  alloc_pd = λ t. 10 + t;
  create_comp_channel = λ t. 10 + t;
  create_cq = λ t. 10 + t;
  req_notify_cq = λ t. pos 0;
  pthread_create = λ t. (pos 0, 10 + t);
  create_qp = λ t. 10 + t;
  rdma_create_qp = λ t. (pos 0, 10 + t);
  reg_mr = λ t. 10 + t;
  malloc = λ t. 10 + t;
  post_recv = λ t. pos 0;
  post_send = λ t. pos 0;
  accept = λ t. pos 0;
  create_event_channel = λ t. 10 + t;
  create_id = λ t. (pos 0, 10 + t);
  bind_addr = λ t. pos 0;
  listen = λ t. pos 0;
  lkey = λ m. m;
}

-- Every id has the queue pair, and id 5 and the queue pair are held where that is one.
abbrev held_pair : Ptr → Kind → List Ptr
held_pair q qp = if q == null then [] else q ∷ []
held_pair q cm_id = 5 ∷ []
held_pair q _ = []

abbrev pub start : Ptr → World
start q = record {
  env = libraries;
  tick = 0;
  live = held_pair q;
  misuse = false;
  conns = λ c. record {
    qp = null;
    recv_mr = null;
    send_mr = null;
    recv_region = c + 1;
    send_region = null;
  };
  ids = λ i. record { verbs = 1; qp = q; context = null };
  log = [];
}
