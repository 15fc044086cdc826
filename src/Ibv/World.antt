-- ===== src/Ibv/World.antt =====
-- What ibv-rc.c runs in: the two structures that it keeps, what the libraries answer, and which
-- of the objects that they handed out are still held.
pub mod Data
pub mod Command
pub use codelib.Ibv.World.Data.{
  Ptr, null, HeapString, Config, ConData, Resources, Opcode, InitAttr, GlobalRoute, RtrAttr,
  RtsAttr, QpAttr, Sge, Event, Kind, kind_eq, Env, World, send, rdma_read, rdma_write, init, rtr,
  rts, connecting, binding, listening, wrote, creating_cq, registering, creating_qp, modified,
  posted_send, posted_recv, sock, dev_list, context, pd, cq, buf, mr, qp, name, chan,
}
pub use codelib.Ibv.World.Command.{
  Run, Cmd, pure, and_then, ◌>>=◌, ◌>>◌, call, ask, modify, set_res, set_config, note, require,
  require_room, has, remove, is_nil, set_live, no_dependants, exit, uses, hold, acquire, release,
  ok, exited, out_of_fuel,
}
