-- ===== src/Ibv/Sock/Pair/Exact.antt =====
-- What a side of sock_sync_data holds of the bytes of the other, while nothing is stored past an array.
use mathlib.Core.List.{append_assoc, append-nil}
use codelib.Base.{
  ℕ, zero, suc, ◌+◌, ◌≤◌, ◌<◌, ◌≡◌, refl, sym, ap, ◌∙◌, ◌||◌, inl, inr, nat_cases, List, [], ◌∷◌,
  ◌++◌, ltb, arith, length, length-append, take, drop,
}
use codelib.Base.Lists.{drop_append, take_append, take-drop, length-take}
use codelib.Ibv.Sock.Pair.{Phase, sending, receiving, Side, initial_side}
use codelib.Ibv.Sock.Pair.Sizes.{total, total-suc, total_strict}
use codelib.Ibv.Sock.Pair.Barrier.{entered, Fits}

-- The bytes of the first calls of the other side, and its local_data, newest first.
unfoldable pub stream : (ℕ → List ℕ) → ℕ → List ℕ
stream d zero = []
stream d (suc k) = stream d k ++ d k

unfoldable pub latest : (ℕ → List ℕ) → ℕ → List (List ℕ)
latest d zero = []
latest d (suc k) = d k ∷ latest d k

module _ {size : ℕ → ℕ} {d : ℕ → List ℕ} (fits : Fits size d) where
  length-stream : (k : ℕ) → length (stream d k) ≡ total size k
  unfolding stream total
  length-stream zero = refl
  length-stream (suc k) =
      omega (arith, length-stream k, fits.fits k, length-append (stream d k) (d k))

  -- The bytes of one call, with what came before and after.
  stream_split : (c k : ℕ) → c < k → (rest : List ℕ) × (stream d k ≡ stream d c ++ (d c ++ rest))
  unfolding stream
  stream_split c zero h = absurd (omega (arith, h))
  stream_split c (suc k) h = elim (nat_cases c k) [
    | inl e ↦ ([], rw (e, append-nil) refl)
    | inr (inl lt) ↦ let (rest, e) = stream_split c k lt in (rest ++ d k, rw e (simp append_assoc))
    | inr (inr gt) ↦ absurd (omega (arith, h, gt))
  ]

abbrev pub held : Phase → List ℕ
held sending = []
held (receiving n got) = got

-- The bytes held are counted, and no more than the call's.
abbrev pub Within : ℕ → Phase → Type 0
Within m sending = Unit {0}
Within m (receiving n got) = (length got ≡ n) × (n ≤ m)

-- What the other side has written: what the calls received, what this one holds, and the rest.
pub record Exact (size : ℕ → ℕ) (d : ℕ → List ℕ) (o : List ℕ) (s : Side) : Type 0 where
  pub unread : List ℕ
  pub split : o ≡ stream d s.call ++ (held s.phase ++ unread)
  pub counted : s.taken ≡ total size s.call + length (held s.phase)
  pub fit : Within (size s.call) s.phase
  pub back : s.returned ≡ latest d s.call

pub Exact-grows :
    {size : ℕ → ℕ} {d : ℕ → List ℕ} {o : List ℕ} {s : Side} (x : List ℕ)
    → Exact size d o s
    → Exact size d (o ++ x) s
Exact-grows {size} {d} {o} {s} x h = record {
  unread = h.unread ++ x;
  split =
      ap (λ l. l ++ x) h.split
      ∙ append_assoc (stream d s.call) (held s.phase ++ h.unread) x
      ∙ ap (λ l. stream d s.call ++ l) (append_assoc (held s.phase) h.unread x);
  counted = h.counted;
  fit = h.fit;
  back = h.back;
}

module _ {size : ℕ → ℕ} {d : ℕ → List ℕ} (fits : Fits size d) where
  -- A read while nothing is stored past the array.
  pub read-Exact :
      {o : List ℕ} {s : Side} {got : List ℕ} (n k : ℕ)
      → s.phase ≡ receiving n got
      → n + k ≤ size s.call
      → s.taken + k ≤ length o
      → Exact size d o s
      → Exact size d o (record s {
        phase = receiving (n + k) (got ++ take k (drop s.taken o));
        taken = s.taken + k;
        overrun = s.overrun || ltb (size s.call) (n + k);
      })
  read-Exact {o} {s} {got} n k e le room h = record {
    unread = drop k h.unread;
    split = h.split ∙ ap (λ l. stream d s.call ++ l) piece;
    counted = omega (arith, more, filled, h.counted);
    fit = (filled, le);
    back = h.back;
  }
    where
      whole : o ≡ (stream d s.call ++ got) ++ h.unread
      whole = h.split ∙ rw e (sym (append_assoc (stream d s.call) got h.unread))

      place : s.taken ≡ length (stream d s.call ++ got)
      place =
          h.counted
          ∙ rw e (omega (arith, length-append (stream d s.call) got, length-stream fits s.call))

      rest : drop s.taken o ≡ h.unread
      rest = rw whole (drop_append (stream d s.call ++ got) h.unread s.taken place)

      enough : k ≤ length h.unread
      enough =
          omega
            (arith, room, place, ap length whole, length-append (stream d s.call ++ got) h.unread)

      piece : held s.phase ++ h.unread ≡ (got ++ take k (drop s.taken o)) ++ drop k h.unread
      piece =
          rw (e, rest, append_assoc got (take k h.unread) (drop k h.unread), take-drop h.unread k)
            refl

      more : length (held s.phase) ≡ n
      more = ground (arith, h.fit, e)

      filled : length (got ++ take k (drop s.taken o)) ≡ n + k
      filled = rw rest (
          omega (
            arith,
            length-append got (take k h.unread),
            length-take h.unread k enough,
            (let same : length got ≡ n = ground (arith, h.fit, e) in same),
          ))

  -- A call that returns with as many bytes as it asked for has those of the other side's call.
  pub return-Exact :
      ((i : ℕ) → 0 < size i)
      → (o : Side) {s : Side} {got : List ℕ} (n : ℕ) → s.phase ≡ receiving n got
      → size s.call ≤ n
      → o.out ≡ stream d (entered o)
      → Exact size d o.out s
      → Exact size d o.out
          (record s { call = suc s.call; phase = sending; returned = got ∷ s.returned })
  unfolding stream latest
  return-Exact some_bytes o {s} {got} n e le written h = record {
    unread = h.unread;
    split =
        whole
        ∙ ap (λ l. stream d s.call ++ (l ++ h.unread)) known
        ∙ sym (append_assoc (stream d s.call) (d s.call) h.unread);
    counted = omega (arith, h.counted, total-suc size s.call, all_held);
    fit = tt;
    back = λ i. known i ∷ h.back i;
  }
    where
      whole : o.out ≡ stream d s.call ++ (got ++ h.unread)
      whole = h.split ∙ rw e refl

      full : length got ≡ size s.call
      full = ground (arith, h.fit, e)

      sent : s.call < entered o
      sent = total_strict size some_bytes (suc s.call) (entered o) (
          omega (
            arith,
            total-suc size s.call,
            ap length whole,
            ap length written,
            length-stream fits (entered o),
            length-stream fits s.call,
            length-append (stream d s.call) (got ++ h.unread),
            length-append got h.unread,
            full,
          ))

      all_held : length (held s.phase) ≡ size s.call
      all_held = rw e full

      parts : (rest : List ℕ) × (stream d (entered o) ≡ stream d s.call ++ (d s.call ++ rest))
      parts = stream_split fits s.call (entered o) sent

      tails : got ++ h.unread ≡ d s.call ++ parts.0
      tails =
          sym (drop_append (stream d s.call) (got ++ h.unread) (length (stream d s.call)) refl)
          ∙ ap (drop (length (stream d s.call))) (sym whole ∙ written ∙ parts.1)
          ∙ drop_append (stream d s.call) (d s.call ++ parts.0) (length (stream d s.call)) refl

      known : got ≡ d s.call
      known =
          sym (take_append got h.unread (size s.call) (sym full))
          ∙ ap (take (size s.call)) tails
          ∙ take_append (d s.call) parts.0 (size s.call) (sym (fits.fits s.call))

module _ {size : ℕ → ℕ} {d : ℕ → List ℕ} where
  pub write-Exact :
      (x : List ℕ) {o : List ℕ} {s : Side}
      → s.phase ≡ sending
      → Exact size d o s
      → Exact size d o (record s { phase = receiving 0 []; out = s.out ++ x })
  write-Exact x {o} {s} e h = record {
    unread = h.unread;
    split = h.split ∙ rw e refl;
    counted = h.counted ∙ rw e refl;
    fit = (refl, omega arith);
    back = h.back;
  }

  pub start-Exact : Exact size d [] initial_side
  unfolding stream latest total
  start-Exact = record { unread = []; split = refl; counted = refl; fit = tt; back = refl }

  pub taken-Exact :
      {o got : List ℕ} {s : Side} (n : ℕ)
      → s.phase ≡ receiving n got
      → Exact size d o s
      → s.taken ≡ total size s.call + n
  taken-Exact n e h = ground (arith, e, h.fit, h.counted)
