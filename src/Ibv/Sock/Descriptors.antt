-- ===== src/Ibv/Sock/Descriptors.antt =====
-- Which descriptors sock_connect leaves open.
use Prim.Native.String.{String}
use codelib.Base.{ℕ, suc, ◌≡◌, Option, none, some, List, ◌++◌, arith, if◌then◌else◌}
use codelib.Base.Int.{minus_one, is_negative}
use codelib.Ibv.World.{Ptr, Resources, Env, World}
use codelib.Ibv.Owned.{Post, Owns, Documented, Same, held_fd}
use codelib.Ibv.Sock.{sock_connect}

-- The sockets that are open and forgotten after a `sock_connect`: on the side that listens, the
-- socket that it listens on, once `bind` has succeeded. `t` calls were made before.
abbrev pub with_listener : Option String → Env → ℕ → List ℕ → List ℕ
with_listener (some server) e t sockets = sockets
with_listener none e t sockets =
    if is_negative (e.bind (suc t)) then sockets else held_fd (e.socket t) ++ sockets

-- Where `res` has no socket yet, `sock_connect` on either side returns a descriptor that is held,
-- or a negative number; nothing else changes hands but the listening socket, which stays open once
-- bind has succeeded. It exits with what was held before, and never waits without end. It is
-- assumed that `socket` returns a descriptor or -1.
pub sock_connect_lem :
    {r : Resources} {dl : Ptr} {sockets names : List ℕ} {w : World} (server : Option String)
    (port : ℕ)
    → Documented w.env
    → Owns r dl sockets names w
    → r.sockfd ≡ minus_one
    → Post
        (λ fd v.
          Owns (record r { sockfd = fd }) dl (with_listener server w.env w.tick sockets) names v
          × Same w v
          × (v.res ≡ w.res))
        (λ v. Owns r dl sockets names v)
        (sock_connect server port w)
unfolding sock_connect
sock_connect_lem {w} (some s) port d o e = ground (arith, d.socket_fails w.tick)
sock_connect_lem {w} none port d o e = ground (arith, d.socket_fails w.tick)
