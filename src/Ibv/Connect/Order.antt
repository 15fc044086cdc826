-- ===== src/Ibv/Connect/Order.antt =====
-- What connect_qp asks of the hardware and of the peer, in order.
use codelib.Base.{◌≡◌, true, none, some, List, ◌∷◌, arith}
use codelib.Base.Int.{is_zero}
use codelib.Ibv.World.{World, Event, modified, posted_recv}
use codelib.Ibv.Owned.{Post}
use codelib.Ibv.Connect.{
  modify_qp_to_init, modify_qp_to_rtr, modify_qp_to_rts, post_receive, init_attr, rtr_attr,
  rts_attr, buffer_sge, client_receive, bring_up,
}

-- The moves that a successful bring-up has asked for, newest first.
unfoldable pub moves : World → List Event
moves w =
    modified w.res.qp rts_attr
    ∷ modified w.res.qp
        (rtr_attr w.config w.res.remote_props.qp_num w.res.remote_props.lid w.res.remote_props.gid)
    ∷ (elim w.config.server_name [
      | none ↦ modified w.res.qp (init_attr w.config) ∷ w.log
      | some s ↦
          posted_recv (buffer_sge w.env w.res.buf w.res.mr)
          ∷ modified w.res.qp (init_attr w.config)
          ∷ w.log
    ])

-- Wherever it starts, a bring_up that returns 0 has logged exactly these requests, with these
-- attributes and in this order: the move to INIT, on the client a receive over the whole buffer,
-- the move to RTR towards the queue pair, lid and gid in `res.remote_props`, and the move to RTS.
-- It always returns.
pub bring_up-moves :
    (w : World) → Post (λ ret v. is_zero ret ≡ true → v.log ≡ moves w) (λ _. ⊥) (bring_up w)
unfolding bring_up moves modify_qp_to_init modify_qp_to_rtr modify_qp_to_rts client_receive
    post_receive
bring_up-moves w = ground arith
