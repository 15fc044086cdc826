-- ===== src/Conn/Cm.antt =====
-- c/ibtest/cm-conn.c; what it prints, but for the messages, is left out. The file uses `s_ctx`, which
-- it does not declare: its pd is a parameter here. `req_req_id` is read as `req_id`. die, accept and
-- listen serve c/ibtest/ib-conn.c too, where the same lines stand.
pub mod Requests
pub mod Polls
mod Tests
use codelib.Base.{ℕ, not, List, [], ◌∷◌, ◌==◌, if◌then◌else◌}
use codelib.Base.Int.{ℤ, pos, is_zero}
use codelib.Conn.World.{
  Ptr, null, QpInitAttr, Wc, Cmd, pure, ◌>>=◌, ◌>>◌, exited, call, ask, modify, set_live, note,
  uses, hold, acquire, release, free, set_conn, set_id, pd, chan, cq, qp, mr, region, conn, cm_id,
  ec, thread, creating_qp, creating_cq, registering, posting_recv, posting_send, received, sent,
  acked, accepting,
}

-- `die`: EXIT_FAILURE
abbrev pub die : {A : Type 0} → Cmd A
die w = exited 1 w

-- A write through a pointer that malloc returned: through NULL it ends the process by SIGSEGV, which
-- a shell shows as the status 128 + 11.
abbrev pub written : Ptr → Cmd (Unit {0})
written p = if p == null then exited 139 else pure tt

abbrev pub assert_nz : Ptr → Cmd (Unit {0})
assert_nz p = if p == null then die else pure tt

abbrev pub assert_z : ℤ → Cmd (Unit {0})
assert_z r = if is_zero r then pure tt else die

abbrev pub buffer_size : ℕ
buffer_size = 1024

-- `struct endpoint`, as far as build_endpoint sets it
pub record Endpoint : Type 0 where
  pub ctx : Ptr
  pub pd : Ptr
  pub chan : Ptr
  pub cq : Ptr
  pub cq_poller_thread : Ptr

-- The message of a receive.
unfoldable pub print_received : Ptr → Cmd (Unit {0})
print_received c = do uses conn c; k ← ask λ w. w.conns c; note (received k.recv_region)

unfoldable pub on_completion : Wc → Cmd (Unit {0})
on_completion wc =
    if not wc.success
    then die
    else if wc.recv
    then print_received wc.wr_id
    else if wc.send
    then note sent
    else pure tt

-- What ibv_poll_cq does where it does not return 0: it fills wc and returns 1, or fails with a negative
-- number and leaves wc as it was.
pub data Poll : Type 0 where
  took : Wc → Poll
  failed : Poll

-- One round of poll_cq: what ibv_get_cq_event and ibv_req_notify_cq return, and what the calls of
-- ibv_poll_cq do then up to the one that returns 0.
pub record Round : Type 0 where
  pub get_cq_event : ℤ
  pub req_notify_cq : ℤ
  pub polls : List Poll

-- What wc is after a call.
abbrev pub polled : Wc → Poll → Wc
polled wc (took new) = new
polled wc failed = wc

-- The loop with what wc is before it, and what it is behind it.
unfoldable pub complete_all : Wc → List Poll → Cmd Wc
complete_all wc [] = pure wc
complete_all wc (p ∷ ps) = do on_completion (polled wc p); complete_all (polled wc p) ps

-- The rounds that come; after the last the thread waits in ibv_get_cq_event. The first argument is what
-- the variable wc of the thread is, which nothing sets at first.
unfoldable pub poll_cq : Wc → List Round → Cmd (Unit {0})
poll_cq wc [] = pure tt
poll_cq wc (r ∷ rs) = do
  assert_z r.get_cq_event
  note acked
  assert_z r.req_notify_cq
  left ← complete_all wc r.polls
  poll_cq left rs

unfoldable pub build_qp_attr : Endpoint → QpInitAttr
build_qp_attr ep = record {
  send_cq = ep.cq;
  recv_cq = ep.cq;
  max_send_wr = 10;
  max_recv_wr = 10;
  max_send_sge = 1;
  max_recv_sge = 1;
}

abbrev cq_size : ℕ
cq_size = 32

unfoldable pub build_endpoint : Ptr → Cmd Endpoint
build_endpoint ctx = do
  p ← acquire pd λ e. e.alloc_pd
  assert_nz p
  c ← acquire chan λ e. e.create_comp_channel
  assert_nz c
  note (creating_cq cq_size)
  q ← acquire cq λ e. e.create_cq
  assert_nz q
  notified ← call λ e. e.req_notify_cq
  assert_z notified
  (created, t) ← call λ e. e.pthread_create
  assert_z created
  modify λ w. set_live thread (t ∷ w.live thread) w
  pure (record { ctx = ctx; pd = p; chan = c; cq = q; cq_poller_thread = t })

unfoldable pub register_memory : Ptr → Ptr → Cmd (Unit {0})
register_memory s_ctx_pd c = do
  s ← acquire region λ e. e.malloc
  set_conn c λ k. record k { send_region = s }
  r ← acquire region λ e. e.malloc
  set_conn c λ k. record k { recv_region = r }
  uses pd s_ctx_pd
  note (registering s_ctx_pd s buffer_size)
  m ← acquire mr λ e. e.reg_mr
  set_conn c λ k. record k { send_mr = m }
  assert_nz m
  uses pd s_ctx_pd
  note (registering s_ctx_pd r buffer_size)
  n ← acquire mr λ e. e.reg_mr
  set_conn c λ k. record k { recv_mr = n }
  assert_nz n

unfoldable pub post_receives : Ptr → Cmd (Unit {0})
post_receives c = do
  uses conn c
  k ← ask λ w. w.conns c
  uses mr k.recv_mr
  uses qp k.qp
  lkey ← ask λ w. w.env.lkey k.recv_mr
  note (posting_recv k.qp c k.recv_region buffer_size lkey)
  ret ← call λ e. e.post_recv
  assert_z ret

-- The queue pair of the endpoint.
unfoldable pub create_endpoint_qp : Endpoint → Cmd Ptr
create_endpoint_qp ep = do
  uses pd ep.pd
  note (creating_qp ep.pd (build_qp_attr ep))
  q ← acquire qp λ e. e.create_qp
  assert_nz q
  pure q

-- The connection of a request, whose qp the id must have.
unfoldable pub new_connection : Ptr → Cmd Ptr
new_connection req_id = do
  i ← ask λ w. w.ids req_id
  assert_nz i.qp
  c ← acquire conn λ e. e.malloc
  set_id req_id λ j. record j { context = c }
  written c
  set_conn c λ k. record k { qp = i.qp }
  pure c

unfoldable pub accept : Ptr → Cmd ℤ
accept req_id = do note (accepting req_id); ret ← call λ e. e.accept; assert_z ret; pure (pos 0)

unfoldable pub on_connect_request : Ptr → Ptr → Cmd ℤ
on_connect_request s_ctx_pd req_id = do
  i ← ask λ w. w.ids req_id
  ep ← build_endpoint i.verbs
  q ← create_endpoint_qp ep
  c ← new_connection req_id
  register_memory s_ctx_pd c
  post_receives c
  accept req_id

unfoldable pub on_connection : Ptr → Cmd ℤ
on_connection context = do
  uses conn context
  k ← ask λ w. w.conns context
  uses region k.send_region
  uses mr k.send_mr
  uses qp k.qp
  lkey ← ask λ w. w.env.lkey k.send_mr
  note (posting_send k.qp k.send_region buffer_size lkey)
  ret ← call λ e. e.post_send
  assert_z ret
  pure (pos 0)

-- The connection of a peer that went.
unfoldable pub free_connection : Ptr → Cmd (Unit {0})
free_connection context = do
  uses conn context
  k ← ask λ w. w.conns context
  release mr k.send_mr
  release mr k.recv_mr
  free region k.send_region
  free region k.recv_region
  free conn context

unfoldable pub on_disconnect : Ptr → Cmd ℤ
on_disconnect id = do
  i ← ask λ w. w.ids id
  release qp i.qp
  free_connection i.context
  release cm_id id
  pure (pos 0)

pub data CmEvent : Type 0 where
  connect_request established disconnected : Ptr → CmEvent
  other : CmEvent

unfoldable pub on_event : Ptr → CmEvent → Cmd ℤ
on_event s_ctx_pd (connect_request id) = on_connect_request s_ctx_pd id
on_event s_ctx_pd (established id) = do i ← ask λ w. w.ids id; on_connection i.context
on_event s_ctx_pd (disconnected id) = on_disconnect id
on_event s_ctx_pd other = die

-- The loop of main over the events that come; after the last rdma_get_cm_event fails.
unfoldable pub event_loop : Ptr → List CmEvent → Cmd (Unit {0})
event_loop s_ctx_pd [] = pure tt
event_loop s_ctx_pd (e ∷ es) = do
  note acked
  r ← on_event s_ctx_pd e
  if is_zero r then event_loop s_ctx_pd es else pure tt

-- The channel and the id that listens on it.
unfoldable pub listen : Cmd (Ptr × Ptr)
listen = do
  channel ← acquire ec λ e. e.create_event_channel
  assert_nz channel
  (created, comm_id) ← call λ e. e.create_id
  assert_z created
  hold cm_id comm_id
  bound ← call λ e. e.bind_addr
  assert_z bound
  listening ← call λ e. e.listen
  assert_z listening
  pure (channel, comm_id)

unfoldable pub main : Ptr → List CmEvent → Cmd ℕ
main s_ctx_pd events = do
  (channel, comm_id) ← listen
  event_loop s_ctx_pd events
  release cm_id comm_id
  release ec channel
  pure 0
