-- ===== src/Conn/Ib.antt =====
-- c/ibtest/ib-conn.c; what it prints is left out. on_completion, post_receives, on_connection and
-- on_disconnect are declared there and not defined: they are parameters, with a result where on_event
-- takes one. The global `s_ctx` is passed along.
pub mod Stages
pub mod OneContext
pub mod Polls
mod Tests
use codelib.Base.{ℕ, Option, none, some, List, [], ◌∷◌, ◌==◌, if◌then◌else◌}
use codelib.Base.Int.{ℤ, pos, is_zero}
use codelib.Conn.World.{
  Ptr, QpInitAttr, Wc, Cmd, pure, ◌>>=◌, ◌>>◌, call, ask, modify, set_live, note, uses, hold,
  acquire, release, set_conn, set_id, pd, chan, cq, qp, mr, region, conn, cm_id, ec, thread,
  context, creating_qp, creating_cq, registering, acked,
}
use codelib.Conn.Cm.{
  die, assert_nz, assert_z, written, buffer_size, Poll, polled, Round, CmEvent, connect_request,
  established, disconnected, other, accept, listen,
}

-- `struct context`, with its own address
pub record Context : Type 0 where
  pub address : Ptr
  pub ctx : Ptr
  pub pd : Ptr
  pub cq : Ptr
  pub comp_channel : Ptr
  pub cq_poller_thread : Ptr

unfoldable pub build_qp_attr : Context → QpInitAttr
build_qp_attr s_ctx = record {
  send_cq = s_ctx.cq;
  recv_cq = s_ctx.cq;
  max_send_wr = 10;
  max_recv_wr = 10;
  max_send_sge = 1;
  max_recv_sge = 1;
}

module _ (on_completion : Wc → Cmd (Unit {0})) where
  -- The loop with what wc is before it, and what it is behind it.
  unfoldable pub complete_all : Wc → List Poll → Cmd Wc
  complete_all wc [] = pure wc
  complete_all wc (p ∷ ps) = do on_completion (polled wc p); complete_all (polled wc p) ps

  -- The rounds that come; after the last the thread waits in ibv_get_cq_event. The first argument is
  -- what the variable wc of the thread is, which nothing sets at first.
  unfoldable pub poll_cq : Wc → List Round → Cmd (Unit {0})
  poll_cq wc [] = pure tt
  poll_cq wc (r ∷ rs) = do
    assert_z r.get_cq_event
    note acked
    assert_z r.req_notify_cq
    left ← complete_all wc r.polls
    poll_cq left rs

-- The structure with the protection domain, the channel and the completion queue.
unfoldable pub new_queue : Cmd (Ptr × Ptr × Ptr × Ptr)
new_queue = do
  s ← acquire context λ e. e.malloc
  written s
  p ← acquire pd λ e. e.alloc_pd
  assert_nz p
  c ← acquire chan λ e. e.create_comp_channel
  assert_nz c
  note (creating_cq 10)
  q ← acquire cq λ e. e.create_cq
  assert_nz q
  pure (s, p, c, q)

unfoldable pub start_poller : Cmd Ptr
start_poller = do
  notified ← call λ e. e.req_notify_cq
  assert_z notified
  (created, t) ← call λ e. e.pthread_create
  assert_z created
  modify λ w. set_live thread (t ∷ w.live thread) w
  pure t

unfoldable pub new_context : Ptr → Cmd Context
new_context verbs = do
  (s, p, c, q) ← new_queue
  t ← start_poller
  pure (record { address = s; ctx = verbs; pd = p; cq = q; comp_channel = c; cq_poller_thread = t })

unfoldable pub build_context : Option Context → Ptr → Cmd Context
build_context none verbs = new_context verbs
build_context (some s_ctx) verbs = if s_ctx.ctx == verbs then pure s_ctx else die

unfoldable pub register_memory : Context → Ptr → Cmd (Unit {0})
register_memory s_ctx c = do
  s ← acquire region λ e. e.malloc
  set_conn c λ k. record k { send_region = s }
  r ← acquire region λ e. e.malloc
  set_conn c λ k. record k { recv_region = r }
  uses pd s_ctx.pd
  note (registering s_ctx.pd s buffer_size)
  m ← acquire mr λ e. e.reg_mr
  set_conn c λ k. record k { send_mr = m }
  assert_nz m
  uses pd s_ctx.pd
  note (registering s_ctx.pd r buffer_size)
  n ← acquire mr λ e. e.reg_mr
  set_conn c λ k. record k { recv_mr = n }
  assert_nz n

-- The queue pair that librdmacm makes for the id.
unfoldable pub create_qp : Context → Ptr → Cmd (Unit {0})
create_qp s_ctx id = do
  uses pd s_ctx.pd
  note (creating_qp s_ctx.pd (build_qp_attr s_ctx))
  (ret, q) ← call λ e. e.rdma_create_qp
  assert_z ret
  hold qp q
  set_id id λ i. record i { qp = q }

unfoldable pub new_connection : Ptr → Cmd Ptr
new_connection id = do
  c ← acquire conn λ e. e.malloc
  set_id id λ i. record i { context = c }
  written c
  i ← ask λ w. w.ids id
  set_conn c λ k. record k { qp = i.qp }
  pure c

module _ (post_receives : Ptr → Cmd (Unit {0})) (on_connection on_disconnect : Ptr → Cmd ℤ) where
  unfoldable pub on_connect_request : Option Context → Ptr → Cmd (ℤ × Option Context)
  on_connect_request s_ctx id = do
    i ← ask λ w. w.ids id
    s ← build_context s_ctx i.verbs
    create_qp s id
    c ← new_connection id
    register_memory s c
    post_receives c
    r ← accept id
    pure (r, some s)

  unfoldable pub on_event : Option Context → CmEvent → Cmd (ℤ × Option Context)
  on_event s_ctx (connect_request id) = on_connect_request s_ctx id
  on_event s_ctx (established id) = do
    i ← ask λ w. w.ids id
    r ← on_connection i.context
    pure (r, s_ctx)
  on_event s_ctx (disconnected id) = do r ← on_disconnect id; pure (r, s_ctx)
  on_event s_ctx other = die

  unfoldable pub event_loop : Option Context → List CmEvent → Cmd (Option Context)
  event_loop s_ctx [] = pure s_ctx
  event_loop s_ctx (e ∷ es) = do
    note acked
    (r, s) ← on_event s_ctx e
    if is_zero r then event_loop s es else pure s

  -- The result, and what s_ctx is then.
  unfoldable pub main : List CmEvent → Cmd (ℕ × Option Context)
  main events = do
    (channel, listener) ← listen
    s ← event_loop none events
    release cm_id listener
    release ec channel
    pure (0, s)
