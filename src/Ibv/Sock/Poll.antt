-- ===== src/Ibv/Sock/Poll.antt =====
-- poll_completion of c/ibtest/ibv-rc.c: its polls, the clock, and what its result means.
use codelib.Base.{
  ℕ, zero, suc, ◌+◌, ◌*◌, ◌≤◌, ◌<◌, ◌≡◌, sym, ◌∙◌, ap, subst, Bool, true, false, arith, Bool-cases,
  inl, inr, ◌⊎◌, if◌then◌else◌, ◌==◌, not, ◌||◌, refl, ltb, ◌&&◌, ◌↔◌,
}
use codelib.Base.Int.{ℤ, pos, is_negative, is_zero, minus_one}
use codelib.Ibv.World.{World, Env, has, cq, pure}
use codelib.Ibv.Owned.{Post, bind, mono}
use codelib.Ibv.Sock.{
  poll_once, poll_loop, poll_completion, max_poll_cq_timeout, wc_success, sub_ulong, msec,
}

-- After its call `t + 1` of the clock, `start` milliseconds being the time before, there is time
-- left.
abbrev pub in_time : Env → ℕ → ℕ → Bool
in_time e start t = ltb (sub_ulong (msec (e.gettimeofday (suc t))) start) max_poll_cq_timeout

-- The poll at call `t` finds nothing, and there is time left.
abbrev pub waits : Env → ℕ → ℕ → Bool
waits e start t = is_zero (e.poll_cq t).0 && in_time e start t

-- The loop ends at the first poll that it does not wait after.
abbrev EndsAt : ℕ → ℕ → World → ℕ → Type 0
EndsAt fuel start w k =
    ((j : ℕ) → j < k → waits w.env start (w.tick + 2 * j) ≡ true)
    × (waits w.env start (w.tick + 2 * k) ≡ false)
    × Post (λ last v. last ≡ w.env.poll_cq (w.tick + 2 * k)) (λ _. ⊥) (poll_loop fuel start w)

-- The world after one poll.
abbrev polled : World → World
polled w = record w { tick = suc (suc w.tick); misuse = w.misuse || not (has w.res.cq (w.live cq)) }

first : (t : ℕ) → t ≡ t + 2 * 0
first t = omega arith

and_late : (a b : Bool) → b ≡ false → a && b ≡ false
and_late true b h = h
and_late false b h = refl

later : (t k : ℕ) → suc (suc t) + 2 * k ≡ t + 2 * suc k
later t k = omega arith

-- Where the first poll is waited after, the rest of the loop ends one poll later.
EndsAt-suc :
    (fuel start k : ℕ) (w : World)
    → waits w.env start w.tick ≡ true
    → EndsAt fuel start (polled w) k
    → EndsAt (suc fuel) start w (suc k)
unfolding poll_loop poll_once
EndsAt-suc fuel start k w more (before, last, run) = (
  earlier,
  subst (λ t. waits w.env start t ≡ false) (later w.tick k) last,
  rw more (mono run λ r v e. e ∙ ap w.env.poll_cq (later w.tick k)),
)
  where
    earlier : (j : ℕ) → j < suc k → waits w.env start (w.tick + 2 * j) ≡ true
    earlier zero h = subst (λ t. waits w.env start t ≡ true) (first w.tick) more
    earlier (suc j) h =
        subst (λ t. waits w.env start t ≡ true) (later w.tick j) (before j (omega arith))

-- A first poll that is not waited after is the last one.
stops_at_once :
    (limit fuel start : ℕ) (w : World)
    → waits w.env start w.tick ≡ false
    → (k : ℕ) × (k ≤ limit) × EndsAt (suc fuel) start w k
unfolding poll_loop poll_once
stops_at_once limit fuel start w done = (
  0,
  omega arith,
  (
    (λ j h. absurd (omega arith)),
    subst (λ t. waits w.env start t ≡ false) (first w.tick) done,
    rw done (record { outcome = ap w.env.poll_cq (first w.tick) }),
  ),
)

poll_loop_lem :
    (limit fuel start : ℕ) (w : World)
    → in_time w.env start (w.tick + 2 * limit) ≡ false
    → limit < fuel
    → (k : ℕ) × (k ≤ limit) × EndsAt fuel start w k
unfolding poll_loop poll_once
poll_loop_lem limit zero start w late enough = absurd (omega arith)
poll_loop_lem zero (suc fuel) start w late enough = stops_at_once 0 fuel start w (and_late _ _ here)
  where
    here : in_time w.env start w.tick ≡ false
    here = subst (λ t. in_time w.env start t ≡ false) (sym (first w.tick)) late
poll_loop_lem (suc l) (suc fuel) start w late enough =
    elim (Bool-cases (waits w.env start w.tick)) [
      | inl more ↦
          let (k, le, ends) =
            poll_loop_lem l fuel start (polled w)
              (subst (λ t. in_time w.env start t ≡ false) (sym (later w.tick l)) late)
              (omega arith) in
          (suc k, omega arith, EndsAt-suc fuel start k w more ends)
      | inr done ↦ stops_at_once (suc l) fuel start w done
    ]

-- A completion was found, and it is of a request that succeeded.
abbrev pub IsCompletion : ℤ × ℕ → Type 0
IsCompletion (count, status) =
    (is_negative count ≡ false) × (is_zero count ≡ false) × (status ≡ wc_success)

-- `poll_completion` ends as soon as the clock, read after some poll, is `max_poll_cq_timeout`
-- milliseconds or more, as `unsigned long` counts them, past the time at its start, and at the
-- latest after that poll. The polls before the last one all found nothing and were in time; the
-- last one found something, failed or was late. The result is 0 where it found a completion with
-- the status IBV_WC_SUCCESS, and -1 in every other case.
pub poll_completion_ends :
    (limit fuel : ℕ) (w : World)
    → in_time w.env (msec (w.env.gettimeofday w.tick)) (suc w.tick + 2 * limit) ≡ false
    → limit < fuel
    → (k : ℕ) × (k ≤ limit)
      × ((j : ℕ)
          → j < k
          → waits w.env (msec (w.env.gettimeofday w.tick)) (suc w.tick + 2 * j) ≡ true)
      × (waits w.env (msec (w.env.gettimeofday w.tick)) (suc w.tick + 2 * k) ≡ false)
      × Post
          (λ ret v.
            ((ret ≡ pos 0) ↔ IsCompletion (w.env.poll_cq (suc w.tick + 2 * k)))
            × ((ret ≡ pos 0) ⊎ (ret ≡ minus_one)))
          (λ _. ⊥)
          (poll_completion fuel w)
unfolding poll_completion
poll_completion_ends limit fuel w late enough =
    let (k, le, (before, last, run)) =
      poll_loop_lem limit fuel (msec (w.env.gettimeofday w.tick)) (record w { tick = suc w.tick })
        late enough in
    (k, le, before, last, bind run λ (count, status) v e. rw (sym e) (verdict count status v))
  where
    verdict :
        (count : ℤ) (status : ℕ) (v : World)
        → Post
            (λ ret v.
              ((ret ≡ pos 0) ↔ IsCompletion (count, status)) × ((ret ≡ pos 0) ⊎ (ret ≡ minus_one)))
            (λ _. ⊥)
            (pure
              (if is_negative count
                then minus_one
                else if is_zero count
                then minus_one
                else if status == wc_success
                then pos 0
                else minus_one)
              v)
    verdict count status v = ground arith
