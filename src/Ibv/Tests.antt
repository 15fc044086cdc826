-- ===== src/Ibv/Tests.antt =====
-- Runs of ibv-rc.c against libraries that always answer.
mod Peer
mod Both
use mathlib.Core.Bool.{false≢true}
use codelib.Base.{
  le→not_ltb, le→not_ltb, ℕ, ◌+◌, ◌*◌, ◌≤◌, ◌<◌, ◌≡◌, ◌⊎◌, ◌↔◌, refl, Bool, true, false, Option,
  none, some, List, [], ◌∷◌, arith, if◌then◌else◌,
}
use codelib.Base.Int.{ℤ, pos, minus_one, is_zero}
use codelib.Ibv.Samples.{libraries, start, parsed, connected}
use codelib.Ibv.World.{ConData, Env, ConData, Run, ok, exited, out_of_fuel, null}
use codelib.Ibv.Owned.{Post, Documented, Same, Owns, IsEmpty, Ready}
use codelib.Ibv.Sock.{
  sock_connect, recv_some, recv_loop, sock_sync_data, poll_once, poll_loop, poll_completion,
}
use codelib.Ibv.Sock.Descriptors.{sock_connect_lem}
use codelib.Ibv.Sock.Poll.{waits, IsCompletion, poll_completion_ends}
use codelib.Ibv.Sock.Receive.{
  sock_sync_data-Delivers, sock_sync_data_waits, sock_sync_data_overruns,
}
use codelib.Ibv.Resources.{
  no_resources, resources_init, go_on, finish, resources_create, resources_destroy,
}
use codelib.Ibv.Resources.Create.{AllOrNothing, resources_create_lem}
use codelib.Ibv.Resources.Release.{resources_destroy_lem}
use codelib.Ibv.Connect.{
  modify_qp_to_init, modify_qp_to_rtr, modify_qp_to_rts, post_send, post_receive, exchange,
  bring_up, connect_qp,
}
use codelib.Ibv.Connect.Data.{IsConData, SameNetwork, exchange-remote_props}
use codelib.Ibv.Connect.Keeps.{Keeps, connect_qp_lem}
use codelib.Ibv.Connect.Peer.{own_data}
use codelib.Ibv.Connect.Order.{moves, bring_up-moves}
use codelib.Ibv.Main.{parse_args, main}
use codelib.Ibv.Main.Lifecycle.{AllReleased, IsIdle, main-AllReleased}

abbrev status : Run ℕ → Option ℕ
status (ok n w) = some n
status (exited n w) = none
status (out_of_fuel w) = none

abbrev is_ok_zero : Run ℤ → Bool
is_ok_zero (ok n w) = is_zero n
is_ok_zero (exited n w) = false
is_ok_zero (out_of_fuel w) = false

client_run : status (main 5 [] ("server" ∷ []) (start 13)) ≡ some 0
unfolding main parse_args resources_init resources_create resources_destroy connect_qp sock_connect
    go_on finish sock_sync_data recv_loop recv_some modify_qp_to_init post_receive modify_qp_to_rtr
    modify_qp_to_rts poll_completion poll_loop poll_once post_send
client_run = refl

libraries-Documented : (n : ℕ) → Documented (libraries n)
libraries-Documented n = record {
  socket_fails = λ t h. absurd (false≢true h);
  strdup_succeeds = λ t h. absurd (omega (arith, h));
}

start-IsIdle : IsIdle (start 13)
start-IsIdle = record { holds_nothing = λ k. refl; no_misuse = refl; no_name = refl }

parsed_lem : parse_args [] ("server" ∷ []) (start 13) ≡ ok true parsed
unfolding parse_args
parsed_lem = refl

main-AllReleased_example :
    Post
      (λ code u. AllReleased [] [] u)
      (λ u. u.misuse ≡ false)
      (main 5 [] ("server" ∷ []) (start 13))
main-AllReleased_example =
    main-AllReleased 5 [] ("server" ∷ []) start-IsIdle (libraries-Documented 13) (omega arith)
      parsed_lem

start-Owns : Owns no_resources null [] [] (start 13)
start-Owns = record {
  qp_held = refl;
  mr_held = refl;
  buf_held = refl;
  cq_held = refl;
  pd_held = refl;
  context_held = refl;
  list_held = refl;
  sock_held = refl;
  name_held = refl;
  clean = refl;
}

parsed-Owns : Owns no_resources null [] [] parsed
parsed-Owns = record {
  qp_held = refl;
  mr_held = refl;
  buf_held = refl;
  cq_held = refl;
  pd_held = refl;
  context_held = refl;
  list_held = refl;
  sock_held = refl;
  name_held = refl;
  clean = refl;
}

parsed-IsEmpty : IsEmpty parsed
parsed-IsEmpty = record {
  qp_null = refl;
  mr_null = refl;
  buf_null = refl;
  cq_null = refl;
  pd_null = refl;
  context_null = refl;
  sock_closed = refl;
}

sock_connect_lem_example :
    Post
      (λ fd v.
        Owns (record no_resources { sockfd = fd }) null (3 ∷ []) [] v
        × Same (start 13) v
        × (v.res ≡ no_resources))
      (λ v. Owns no_resources null [] [] v)
      (sock_connect none 19875 (start 13))
sock_connect_lem_example =
    sock_connect_lem {sockets = []} {names = []} {w = start 13} none 19875 (libraries-Documented 13)
      start-Owns refl

resources_create_lem_example :
    Post
      (λ ret v. Owns v.res null [] [] v × AllOrNothing ret v)
      (λ v. Owns no_resources null [] [] v)
      (resources_create parsed)
resources_create_lem_example =
    resources_create_lem {sockets = []} {names = []} {w = parsed} (libraries-Documented 13)
      parsed-Owns parsed-IsEmpty refl

connected-Ready : (e : Env) → Ready [] [] (connected e)
connected-Ready e = record {
  owns = record {
    qp_held = refl;
    mr_held = refl;
    buf_held = refl;
    cq_held = refl;
    pd_held = refl;
    context_held = refl;
    list_held = refl;
    sock_held = refl;
    name_held = refl;
    clean = refl;
  };
  full = record {
    qp_made = λ h. absurd (omega (arith, h));
    mr_made = λ h. absurd (omega (arith, h));
    buf_made = λ h. absurd (omega (arith, h));
    cq_made = λ h. absurd (omega (arith, h));
    pd_made = λ h. absurd (omega (arith, h));
    context_made = λ h. absurd (omega (arith, h));
    sock_made = refl;
  };
}

resources_destroy_lem_example :
    Post
      (λ _ v. Owns no_resources null [] [] v × (v.config ≡ parsed.config))
      (λ _. ⊥)
      (resources_destroy (connected (libraries 13)))
resources_destroy_lem_example =
    resources_destroy_lem {sockets = []} {names = []} {w = connected (libraries 13)}
      (connected-Ready (libraries 13)).owns

connect_qp_lem_example : Keeps [] [] (connect_qp 5 (connected (libraries 13)))
connect_qp_lem_example = connect_qp_lem 5 (connected-Ready (libraries 13))

server_moves :
    Post
      (λ ret v. is_zero ret ≡ true → v.log ≡ moves (connected (libraries 13)))
      (λ _. ⊥)
      (bring_up (connected (libraries 13)))
server_moves = bring_up-moves (connected (libraries 13))

connected_well : is_ok_zero (connect_qp 5 (connected (libraries 1))) ≡ true
unfolding connect_qp sock_sync_data recv_loop recv_some modify_qp_to_init post_receive
    modify_qp_to_rtr modify_qp_to_rts
connected_well = refl
