-- ===== src/Ibv/Samples.antt =====
-- Libraries that always answer, and worlds of c/ibtest/ibv-rc.c with them, for tests.
use codelib.Base.{ℕ, false, none, some, [], ◌∷◌, ◌==◌, if◌then◌else◌, replicate}
use codelib.Base.Int.{pos, minus_one}
use codelib.Ibv.World.{Env, World, sock, dev_list, context, pd, cq, buf, mr, qp, name, chan}
use codelib.Ibv.Resources.{no_resources}

-- `n` is the call that reads the connection data.
abbrev pub libraries : ℕ → Env
libraries n = record {
  socket = λ t. pos 3;
  connect = λ t. pos 0;
  bind = λ t. pos 0;
  accept = λ t. pos 4;
  close = λ t. pos 0;
  write = λ t. pos 34;
  read = λ t. if t == n then (pos 34, replicate 34 7) else (pos 1, 0 ∷ []);
  gettimeofday = λ t. (t, 0);
  strdup = λ t. 500;
  malloc = λ t. 600;
  get_device_list = λ t. (100, (101, "mlx4_0") ∷ []);
  open_device = λ t. 110;
  query_device = λ t. pos 0;
  query_port = λ t. (pos 0, 5, 1);
  query_gid = λ t. (pos 0, replicate 16 1);
  alloc_pd = λ t. 120;
  create_comp_channel = λ t. 125;
  create_cq = λ t. 130;
  reg_mr = λ t. 140;
  create_qp = λ t. 150;
  modify_qp = λ t. pos 0;
  post_send = λ t. pos 0;
  post_recv = λ t. pos 0;
  poll_cq = λ t. (pos 1, 0);
  release = λ k t. pos 0;
  lkey = λ p. 11;
  rkey = λ p. 12;
  qp_num = λ p. 13;
  htonll = λ x. x;
  ntohll = λ x. x;
  htonl = λ x. x;
  ntohl = λ x. x;
  htons = λ x. x;
  ntohs = λ x. x;
}

abbrev pub start : ℕ → World
start n = record {
  env = libraries n;
  tick = 0;
  live = λ k. [];
  misuse = false;
  overrun = false;
  config = record {
    dev_name = none;
    server_name = none;
    tcp_port = 19875;
    ib_port = pos 1;
    gid_idx = minus_one;
  };
  res = no_resources;
  bytes = [];
  log = [];
}

-- The world once the client's command line is read.
abbrev pub parsed : World
parsed = record (start 13) {
  config = record {
    dev_name = none;
    server_name = some "server";
    tcp_port = 19875;
    ib_port = pos 1;
    gid_idx = minus_one;
  };
}

-- A world in which every resource is there.
abbrev pub connected : Env → World
connected e = record parsed {
  env = e;
  live = λ k. elim k [
    | sock ↦ 3 ∷ []
    | dev_list ↦ []
    | context ↦ 110 ∷ []
    | pd ↦ 120 ∷ []
    | cq ↦ 130 ∷ []
    | buf ↦ 600 ∷ []
    | mr ↦ 140 ∷ []
    | qp ↦ 150 ∷ []
    | name ↦ []
    | chan ↦ []
  ];
  res = record no_resources {
    ib_ctx = 110;
    pd = 120;
    cq = 130;
    qp = 150;
    mr = 140;
    buf = 600;
    sockfd = pos 3;
  };
}
