-- ===== src/Probe.antt =====
-- main of c/ibtest/verb-probe.c, in the world of c/ibtest/ibv-rc.c; what it prints is left out.
pub mod Released
mod Tests
use codelib.Base.{ℕ, zero, suc, not, List, ◌==◌, if◌then◌else◌, length}
use codelib.Base.Int.{ℤ, is_negative}
use codelib.Ibv.World.{
  Ptr, null, Cmd, pure, ◌>>=◌, ◌>>◌, call, note, require, exit, uses, hold, acquire, release,
  dev_list, context, pd, cq, buf, mr, chan, creating_cq, registering,
}

abbrev pub mr_size : ℕ
mr_size = 4096

abbrev pub cq_size : ℕ
cq_size = 128

-- `if (!p) exit(1);`
abbrev or_exit : Ptr → Cmd (Unit {0})
or_exit p = if p == null then exit 1 else pure tt

-- `if (ret < 0) exit(1);`
abbrev ok_or_exit : ℤ → Cmd (Unit {0})
ok_or_exit r = if is_negative r then exit 1 else pure tt

-- The list of devices and the context of the first one. `pdev[0]` is taken whatever the list is.
unfoldable pub open_first : Cmd (Ptr × Ptr)
open_first = do
  (pdev, devices) ← call λ e. e.get_device_list
  hold dev_list pdev
  uses dev_list pdev
  require λ _. not (length devices == 0)
  ctx ← acquire context λ e. e.open_device
  or_exit ctx
  pure (pdev, ctx)

-- The loop over the gids.
unfoldable pub query_gids : ℕ → Ptr → Cmd (Unit {0})
query_gids zero ctx = pure tt
query_gids (suc n) ctx = do
  uses context ctx
  (ret, gid) ← call λ e. e.query_gid
  if is_negative ret then pure tt else query_gids n ctx

unfoldable pub query : Ptr → Cmd (Unit {0})
unfolding query_gids
query ctx = do
  uses context ctx
  ret ← call λ e. e.query_device
  ok_or_exit ret
  uses context ctx
  (ret, lid, gid_tbl_len) ← call λ e. e.query_port
  ok_or_exit ret
  query_gids gid_tbl_len ctx

-- The protection domain and the memory region.
unfoldable pub register : Ptr → Cmd (Ptr × Ptr)
register ctx = do
  uses context ctx
  p ← acquire pd λ e. e.alloc_pd
  or_exit p
  b ← acquire buf λ e. e.malloc
  uses pd p
  uses buf b
  note (registering b mr_size)
  m ← acquire mr λ e. e.reg_mr
  or_exit m
  pure (p, m)

-- The channel and the two completion queues.
unfoldable pub create_queues : Ptr → Cmd (Ptr × Ptr × Ptr)
create_queues ctx = do
  uses context ctx
  c ← acquire chan λ e. e.create_comp_channel
  or_exit c
  note (creating_cq cq_size)
  uses chan c
  q1 ← acquire cq λ e. e.create_cq
  or_exit q1
  note (creating_cq cq_size)
  q2 ← acquire cq λ e. e.create_cq
  or_exit q2
  pure (c, q1, q2)

unfoldable pub destroy_queues : (c q1 q2 : Ptr) → Cmd (Unit {0})
destroy_queues c q1 q2 = do release cq q2; release cq q1; release chan c; pure tt

unfoldable pub drop_domain : (p m : Ptr) → Cmd (Unit {0})
drop_domain p m = do release mr m; release pd p; pure tt

unfoldable pub close_device : (ctx pdev : Ptr) → Cmd ℕ
close_device ctx pdev = do release dev_list pdev; release context ctx; pure 0

unfoldable pub main : Cmd ℕ
main = do
  (pdev, ctx) ← open_first
  query ctx
  (p, m) ← register ctx
  (c, q1, q2) ← create_queues ctx
  destroy_queues c q1 q2
  drop_domain p m
  close_device ctx pdev
