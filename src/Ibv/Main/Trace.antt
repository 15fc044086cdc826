-- ===== src/Ibv/Main/Trace.antt =====
-- What a session of c/ibtest/ibv-rc.c tells the peer and asks of the hardware, in order.
use Prim.Native.String.{String}
use codelib.Base.{refl, ℕ, refl, Option, none, some, List, [], ◌∷◌}
use codelib.Ibv.World.{World, Event, Cmd, pure, ◌>>◌, wrote, send, rdma_read, rdma_write}
use codelib.Ibv.Sock.{poll_completion}
use codelib.Ibv.Connect.Order.{moves}
use codelib.Ibv.Main.Steps.{request}
use codelib.Ibv.Main.{or_exit, sync, server_send, server_text, client_rdma}

-- All that a session has told and asked for where it returns 0, newest first, with the server's name
-- that it was given: `w` is the world in which the peer's data has been stored.
abbrev pub trace_of : World → Option String → List Event
trace_of w none =
    wrote (b'W' ∷ []) ∷ wrote (b'R' ∷ []) ∷ request send w ∷ wrote (b'Q' ∷ []) ∷ moves w
trace_of w (some s) =
    wrote (b'W' ∷ [])
    ∷ request rdma_write w
    ∷ request rdma_read w
    ∷ wrote (b'R' ∷ [])
    ∷ wrote (b'Q' ∷ [])
    ∷ moves w

abbrev pub trace : World → List Event
trace w = trace_of w w.config.server_name

after_connect : ℕ → Cmd ℕ
after_connect fuel = or_exit server_send (
    or_exit (poll_completion fuel) (
      server_text
      >> or_exit (sync fuel b'R') (client_rdma fuel (or_exit (sync fuel b'W') (pure 0)))))
