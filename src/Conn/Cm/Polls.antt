-- ===== src/Conn/Cm/Polls.antt =====
-- What the polling thread of cm-conn.c tells of the completions.
use codelib.Base.{
  ◌≡◌, refl, sym, ap, ◌∙◌, Bool, true, false, Bool-cases, inl, inr, ◌&&◌, List, [], ◌∷◌, ◌++◌,
  if◌then◌else◌, arith,
}
use codelib.Base.Int.{is_zero}
use codelib.Conn.World.{
  Ptr, Connection, Wc, Event, received, sent, acked, World, Run, Cmd, and_then, Post, bind,
  mono_both,
}
use codelib.Conn.Cm.{
  print_received, on_completion, Poll, took, failed, complete_all, Round, poll_cq,
}

-- What is told of one completion.
abbrev pub message : (Ptr → Connection) → Wc → List Event
message conns wc =
    if wc.recv
    then received (conns wc.wr_id).recv_region ∷ []
    else if wc.send
    then sent ∷ []
    else []

abbrev pub messages : (Ptr → Connection) → List Wc → List Event
messages conns [] = []
messages conns (wc ∷ wcs) = message conns wc ++ messages conns wcs

-- The completions that the thread handles in a round: after a call that fails, the one before again.
abbrev pub handled : Wc → List Poll → List Wc
handled wc [] = []
handled wc (took new ∷ ps) = new ∷ handled new ps
handled wc (failed ∷ ps) = wc ∷ handled wc ps

-- What is in wc after the calls of a round.
abbrev pub remaining : Wc → List Poll → Wc
remaining wc [] = wc
remaining wc (took new ∷ ps) = remaining new ps
remaining wc (failed ∷ ps) = remaining wc ps

-- What is told of all the rounds, oldest first.
abbrev pub told : (Ptr → Connection) → Wc → List Round → List Event
told conns wc [] = []
told conns wc (r ∷ rs) =
    acked ∷ messages conns (handled wc r.polls) ++ told conns (remaining wc r.polls) rs

abbrev pub all_succeed : List Wc → Bool
all_succeed [] = true
all_succeed (wc ∷ wcs) = wc.success && all_succeed wcs

-- What the thread asserts of a round, and what on_completion does of what it is called with.
abbrev pub round_succeeds : Wc → Round → Bool
round_succeeds wc r =
    is_zero r.get_cq_event && is_zero r.req_notify_cq && all_succeed (handled wc r.polls)

abbrev pub all_rounds_succeed : Wc → List Round → Bool
all_rounds_succeed wc [] = true
all_rounds_succeed wc (r ∷ rs) = round_succeeds wc r && all_rounds_succeed (remaining wc r.polls) rs

-- A log after more events, oldest first.
abbrev pub tell : List Event → List Event → List Event
tell [] log = log
tell (e ∷ es) log = tell es (e ∷ log)

tell_append : (xs ys log : List Event) → tell (xs ++ ys) log ≡ tell ys (tell xs log)
tell_append [] ys log = refl
tell_append (x ∷ xs) ys log = tell_append xs ys (x ∷ log)

-- A run that returns a had only successes and tells the events, oldest first; one that dies, with
-- status 1, met a failure.
abbrev pub Tells : {A : Type 0} → A → Bool → List Event → World → Run A → Type 0
Tells a good es w =
    Post (λ x v. (x ≡ a) × (good ≡ true) × (v.conns ≡ w.conns) × (v.log ≡ tell es w.log))
      (λ n _. (n ≡ 1) × (good ≡ false))

bind-Tells :
    {A B : Type 0} (a : A) (z : B) (b c : Bool) (xs ys : List Event) (w : World) (r : Run A)
    (k : A → Cmd B)
    → Tells a b xs w r
    → ((v : World) → v.conns ≡ w.conns → Tells z c ys v (k a v))
    → Tells z (b && c) (xs ++ ys) w (and_then r k)
bind-Tells a z b c xs ys w r k first next =
    bind (mono_both first (λ _ v p. p) λ n v (one, bad). (one, rw bad refl))
      λ x v (e, good, same, log). rw e (
        mono_both (next v same)
          (λ _ u (e', fine, same', log'). (
            e',
            rw (good, fine) refl,
            same' ∙ same,
            log' ∙ ap (tell ys) log ∙ sym (tell_append xs ys w.log),
          ))
          λ n u (one, bad). (one, rw (good, bad) refl))

on_completion_lem :
    (wc : Wc) (w : World) → Tells tt wc.success (message w.conns wc) w (on_completion wc w)
unfolding on_completion print_received
on_completion_lem wc w = ground (arith)

complete_all_lem :
    (wc : Wc) (ps : List Poll) (w : World)
    → Tells
        (remaining wc ps)
        (all_succeed (handled wc ps))
        (messages w.conns (handled wc ps))
        w
        (complete_all wc ps w)
unfolding complete_all
complete_all_lem wc [] w = record { outcome = (refl, refl, refl, refl) }
complete_all_lem wc (took new ∷ ps) w =
    bind-Tells tt (remaining new ps) new.success (all_succeed (handled new ps))
      (message w.conns new) (messages w.conns (handled new ps)) w (on_completion new w)
      (λ _. complete_all new ps) (on_completion_lem new w)
      λ v same. rw (sym same) (complete_all_lem new ps v)
complete_all_lem wc (failed ∷ ps) w =
    bind-Tells tt (remaining wc ps) wc.success (all_succeed (handled wc ps)) (message w.conns wc)
      (messages w.conns (handled wc ps)) w (on_completion wc w) (λ _. complete_all wc ps)
      (on_completion_lem wc w) λ v same. rw (sym same) (complete_all_lem wc ps v)

-- In rounds of any results, the polling thread gets through them exactly where ibv_get_cq_event and
-- ibv_req_notify_cq always return 0 and every completion that it handles is a success. It then has
-- acknowledged each round before it told of the completions of that round, in order: the region of
-- the connection that each receive names, and each send. Where ibv_poll_cq fails, it handles what it
-- had in wc once more, which is at first what wc was by chance. Else it dies with status 1.
pub poll_cq_lem :
    (wc : Wc) (rs : List Round) (w : World)
    → Tells tt (all_rounds_succeed wc rs) (told w.conns wc rs) w (poll_cq wc rs w)
unfolding poll_cq
poll_cq_lem wc [] w = record { outcome = (refl, refl, refl, refl) }
poll_cq_lem wc (r ∷ rs) w = elim (Bool-cases (is_zero r.get_cq_event)) [
  | inl got ↦ elim (Bool-cases (is_zero r.req_notify_cq)) [
    | inl asked ↦
        rw (got, asked)
          (bind-Tells (remaining wc r.polls) tt (all_succeed (handled wc r.polls))
            (all_rounds_succeed (remaining wc r.polls) rs) (messages w.conns (handled wc r.polls))
            (told w.conns (remaining wc r.polls) rs) (record w { log = acked ∷ w.log })
            (complete_all wc r.polls (record w { log = acked ∷ w.log })) (λ left. poll_cq left rs)
            (complete_all_lem wc r.polls (record w { log = acked ∷ w.log }))
            λ v same. rw (sym same) (poll_cq_lem (remaining wc r.polls) rs v))
    | inr bad ↦ rw (got, bad) (record { outcome = (refl, refl) })
  ]
  | inr bad ↦ rw bad (record { outcome = (refl, refl) })
]
