-- ===== src/Ibv/Main/Steps.antt =====
-- What the steps of a session of c/ibtest/ibv-rc.c tell the peer and ask of the hardware.
use Prim.Native.String.{String}
use codelib.Base.{
  ℕ, ◌≡◌, sym, ap, ◌∙◌, Bool, true, false, Bool-cases, inl, inr, Option, none, some, List, [], ◌∷◌,
  arith,
}
use codelib.Base.Int.{ℤ, is_zero}
use codelib.Ibv.World.{Config, World, Event, Run, ok, Cmd, pure, Opcode, wrote, posted_send, send}
use codelib.Ibv.Owned.{Post, bind, mono}
use codelib.Ibv.Sock.{poll_completion}
use codelib.Ibv.Sock.Told.{Tells, sock_sync_data-Tells, poll_completion_quiet}
use codelib.Ibv.Resources.{strcpy_buf, rdma_msg_read}
use codelib.Ibv.Connect.{post_send, buffer_sge, remote_of}
use codelib.Ibv.Main.{or_exit, sync, server_send, server_text, is_client}

-- A request over the whole buffer, towards what `res.remote_props` names.
abbrev pub request : Opcode → World → Event
request op w =
    posted_send op (buffer_sge w.env w.res.buf w.res.mr) (remote_of op w.res.remote_props)

-- A run that returns 0 only with this log.
abbrev pub Ends : List Event → Run ℕ → Type 0
Ends final r = Post (λ n u. n ≡ 0 → u.log ≡ final) (λ _. Unit) r

-- A step that returns 0 only with this log.
abbrev pub Steps : List Event → World → Run ℤ → Type 0
Steps log w r = Post (λ ret u. is_zero ret ≡ true → Tells log w u) (λ _. Unit) r

pub or_exit_lem :
    {w v : World} {log final : List Event} (step : Cmd ℤ) (next : Cmd ℕ)
    → Steps log w (step v)
    → ((u : World) → Tells log w u → Ends final (next u))
    → Ends final (or_exit step next v)
unfolding or_exit
or_exit_lem step next first more = bind first λ ret u t. elim (Bool-cases (is_zero ret)) [
  | inl good ↦ rw good (more u (t good))
  | inr bad ↦ rw bad (record { outcome = λ e. absurd (omega (arith, e)) })
]

pub sync_lem :
    {w v : World} {log : List Event} (fuel c : ℕ)
    → Tells log w v
    → Steps (wrote (c ∷ []) ∷ log) w (sync fuel c v)
unfolding sync
sync_lem {w} {v} fuel c t = bind (sock_sync_data-Tells fuel v.res.sockfd 1 (c ∷ []) v) λ p u s.
    record {
      outcome = λ z. record {
        told = s.told ∙ ap (λ l. wrote (c ∷ []) ∷ l) t.told;
        same_res = s.same_res ∙ t.same_res;
        same_env = s.same_env ∙ t.same_env;
        same_config = s.same_config ∙ t.same_config;
      };
    }

pub post_send_lem :
    {w v : World} {log : List Event} (op : Opcode)
    → Tells log w v
    → Steps (request op w ∷ log) w (post_send op v)
unfolding post_send
post_send_lem op t = record {
  outcome = λ z. record {
    told = λ i.
        posted_send op (buffer_sge (t.same_env i) (t.same_res i).buf (t.same_res i).mr)
          (remote_of op (t.same_res i).remote_props)
        ∷ t.told i;
    same_res = t.same_res;
    same_env = t.same_env;
    same_config = t.same_config;
  };
}

pub poll_lem :
    {w v : World} {log : List Event} (fuel : ℕ)
    → Tells log w v
    → Steps log w (poll_completion fuel v)
poll_lem {w} fuel t = mono (poll_completion_quiet fuel w t) λ r u h z. h

pub strcpy_lem :
    {w v : World} {log : List Event} (text : String)
    → Tells log w v
    → Post (λ _ u. Tells log w u) (λ _. Unit) (strcpy_buf text v)
unfolding strcpy_buf
strcpy_lem text t = ground (arith, t)

module _ {w : World} where
  pub is_server :
      {v : World} {log : List Event}
      → w.config.server_name ≡ none
      → Tells log w v
      → is_client v ≡ ok false v
  unfolding is_client
  is_server {v} e t =
      ap
        (λ (o : Option String).
          (elim o as (λ x. Cmd Bool) [ none ↦ pure false | some s ↦ pure true ]) v)
        (ap (λ (c : Config). c.server_name) t.same_config ∙ e)

  pub is_client_lem :
      {v : World} {log : List Event} {s : String}
      → w.config.server_name ≡ some s
      → Tells log w v
      → is_client v ≡ ok true v
  unfolding is_client
  is_client_lem {v} e t =
      ap
        (λ (o : Option String).
          (elim o as (λ x. Cmd Bool) [ none ↦ pure false | some s ↦ pure true ]) v)
        (ap (λ (c : Config). c.server_name) t.same_config ∙ e)

  -- On the server.
  pub server_send_lem :
      {v : World} {log : List Event}
      → w.config.server_name ≡ none
      → Tells log w v
      → Steps (request send w ∷ log) w (server_send v)
  unfolding server_send
  server_send_lem e t = rw (is_server e t) (post_send_lem send t)

  pub server_text_lem :
      {v : World} {log : List Event}
      → w.config.server_name ≡ none
      → Tells log w v
      → Post (λ _ u. Tells log w u) (λ _. Unit) (server_text v)
  unfolding server_text
  server_text_lem e t = rw (is_server e t) (strcpy_lem rdma_msg_read t)

  -- On the client.
  pub client_send_lem :
      {v : World} {log : List Event} {s : String}
      → w.config.server_name ≡ some s
      → Tells log w v
      → Steps log w (server_send v)
  unfolding server_send
  client_send_lem e t = rw (is_client_lem e t) (record { outcome = λ z. t })

  pub client_text_lem :
      {v : World} {log : List Event} {s : String}
      → w.config.server_name ≡ some s
      → Tells log w v
      → Post (λ _ u. Tells log w u) (λ _. Unit) (server_text v)
  unfolding server_text
  client_text_lem e t = rw (is_client_lem e t) (record { outcome = t })

  -- The end: the last word to the peer.
  pub last_lem :
      {v : World} {log final : List Event} (fuel : ℕ)
      → final ≡ wrote (b'W' ∷ []) ∷ log
      → Tells log w v
      → Ends final (or_exit (sync fuel b'W') (pure 0) v)
  last_lem fuel f t =
      or_exit_lem (sync fuel b'W') (pure 0) (sync_lem fuel b'W' t)
        λ u t'. record { outcome = λ z. t'.told ∙ sym f }
