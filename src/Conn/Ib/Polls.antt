-- ===== src/Conn/Ib/Polls.antt =====
-- The polling thread of ib-conn.c, whatever on_completion does.
use codelib.Base.{◌≡◌, refl, ap, Bool, true, Bool-cases, inl, inr, ◌&&◌, List, [], ◌∷◌}
use codelib.Base.Int.{is_zero}
use codelib.Conn.World.{Wc, acked, World, Cmd, Post, bind, ◌>>=◌, ◌>>◌, note}
use codelib.Conn.Cm.{Poll, polled, Round, on_completion, assert_z}
use codelib.Conn.Ib.{complete_all, poll_cq}
use codelib.Conn.Cm

-- The calls of the rounds that the thread itself makes.
abbrev pub all_calls_succeed : List Round → Bool
all_calls_succeed [] = true
all_calls_succeed (r ∷ rs) =
    is_zero r.get_cq_event && is_zero r.req_notify_cq && all_calls_succeed rs

module _ {P : World → Type 0} {handler : Wc → Cmd (Unit {0})}
    (handler_keeps : (wc : Wc) (w : World)
      → P w
      → Post (λ _. P) (λ n _. n ≡ 1) (handler wc w)) where
  complete_all-keeps :
      (wc : Wc) (ps : List Poll) (w : World)
      → P w
      → Post (λ _. P) (λ n _. n ≡ 1) (complete_all handler wc ps w)
  unfolding complete_all
  complete_all-keeps wc [] w h = record { outcome = h }
  complete_all-keeps wc (p ∷ ps) w h =
      bind (handler_keeps (polled wc p) w h) λ _ v g. complete_all-keeps (polled wc p) ps v g

  -- What a handler of completions keeps, and an acknowledgement too, the polling thread keeps; it gets
  -- through its rounds only where the calls that it tests all succeed. It exits with status 1 else, if
  -- the handler exits with no other.
  pub poll_cq_keeps :
      (wc : Wc) (rs : List Round) (w : World)
      → ((v : World) → P v → P (record v { log = acked ∷ v.log }))
      → P w
      → Post (λ _ v. P v × (all_calls_succeed rs ≡ true)) (λ n _. n ≡ 1) (poll_cq handler wc rs w)
  unfolding poll_cq
  poll_cq_keeps wc [] w ack h = record { outcome = (h, refl) }
  poll_cq_keeps wc (r ∷ rs) w ack h = elim (Bool-cases (is_zero r.get_cq_event)) [
    | inl got ↦ elim (Bool-cases (is_zero r.req_notify_cq)) [
      | inl asked ↦
          rw (got, asked)
            (bind (complete_all-keeps wc r.polls _ (ack w h))
              λ left v g. poll_cq_keeps left rs v ack g)
      | inr bad ↦ rw (got, bad) (record { outcome = refl })
    ]
    | inr bad ↦ rw bad (record { outcome = refl })
  ]

complete_all-on_completion :
    (wc : Wc) (ps : List Poll) → complete_all on_completion wc ps ≡ Cm.complete_all wc ps
unfolding complete_all Cm.complete_all
complete_all-on_completion wc [] = refl
complete_all-on_completion wc (p ∷ ps) =
    ap (λ (m : Cmd Wc). on_completion (polled wc p) >> m)
      (complete_all-on_completion (polled wc p) ps)

-- With the on_completion of cm-conn.c the thread does what the thread there does.
pub poll_cq-on_completion :
    (wc : Wc) (rs : List Round) → poll_cq on_completion wc rs ≡ Cm.poll_cq wc rs
unfolding poll_cq Cm.poll_cq
poll_cq-on_completion wc [] = refl
poll_cq-on_completion wc (r ∷ rs) = λ i. do
  assert_z r.get_cq_event
  note acked
  assert_z r.req_notify_cq
  left ← complete_all-on_completion wc r.polls i
  poll_cq-on_completion left rs i
