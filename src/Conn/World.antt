-- ===== src/Conn/World.antt =====
-- What the servers of c/ibtest/cm-conn.c and c/ibtest/ib-conn.c run in: Conn/World/Data, passed on, and
-- the commands that they are written with.
mod Data
use codelib.Base.{ℕ, suc, Bool, true, false, not, ◌||◌, List, [], ◌∷◌, ◌==◌, if◌then◌else◌}
pub use Data.*

pub data Run (A : Type 0) : Type 0 where
  ok : A → World → Run A
  exited : ℕ → World → Run A

abbrev pub Cmd : Type 0 → Type 0
Cmd A = World → Run A

abbrev pub pure : {A : Type 0} → A → Cmd A
pure = ok

module _ {A B : Type 0} where
  abbrev pub and_then : Run A → (A → Cmd B) → Run B
  and_then (ok a w) k = k a w
  and_then (exited n w) k = exited n w

  infixl 5 ◌>>=◌ ◌>>◌
  abbrev pub ◌>>=◌ : Cmd A → (A → Cmd B) → Cmd B
  m >>= k = λ w. and_then (m w) k

  abbrev pub ◌>>◌ : Cmd A → Cmd B → Cmd B
  m >> n = m >>= λ _. n

abbrev pub call : {A : Type 0} → (Env → ℕ → A) → Cmd A
call f w = ok (f w.env w.tick) (record w { tick = suc w.tick })

abbrev pub ask : {A : Type 0} → (World → A) → Cmd A
ask f w = ok (f w) w

abbrev pub modify : (World → World) → Cmd (Unit {0})
modify f w = ok tt (f w)

abbrev pub note : Event → Cmd (Unit {0})
note e = modify λ w. record w { log = e ∷ w.log }

abbrev pub has : Ptr → List Ptr → Bool
has h [] = false
has h (x ∷ xs) = (h == x) || has h xs

abbrev pub remove : Ptr → List Ptr → List Ptr
remove h [] = []
remove h (x ∷ xs) = let rest = remove h xs in if h == x then xs else x ∷ rest

abbrev pub set_live : Kind → List Ptr → World → World
set_live k hs w = record w { live = λ j. if kind_eq j k then hs else w.live j }

-- The object is used.
abbrev pub uses : Kind → Ptr → Cmd (Unit {0})
uses k h = modify λ w. record w { misuse = w.misuse || not (has h (w.live k)) }

-- What a call returned is held from then on, unless it is NULL.
abbrev pub hold : Kind → Ptr → Cmd (Unit {0})
hold k h = if h == null then pure tt else modify λ w. set_live k (h ∷ w.live k) w

abbrev pub acquire : Kind → (Env → ℕ → Ptr) → Cmd Ptr
acquire k f = do h ← call f; hold k h; pure h

abbrev pub release : Kind → Ptr → Cmd (Unit {0})
release k h = do uses k h; modify λ w. set_live k (remove h (w.live k)) w

-- `free`: of NULL it does nothing.
unfoldable pub free : Kind → Ptr → Cmd (Unit {0})
free k h = if h == null then pure tt else release k h

abbrev pub set_conn : Ptr → (Connection → Connection) → Cmd (Unit {0})
set_conn c f = modify λ w. record w { conns = λ p. if p == c then f (w.conns c) else w.conns p }

abbrev pub set_id : Ptr → (CmId → CmId) → Cmd (Unit {0})
set_id i f = modify λ w. record w { ids = λ p. if p == i then f (w.ids i) else w.ids p }

-- What holds of the result and the world after a run that returns, and after one that exits.
abbrev pub Outcome : {A : Type 0} → (A → World → Type 0) → (ℕ → World → Type 0) → Run A → Type 0
Outcome P X (ok a w) = P a w
Outcome P X (exited n w) = X n w

pub record Post {A : Type 0} (P : A → World → Type 0) (X : ℕ → World → Type 0) (r : Run A)
    : Type 0 where
  pub outcome : Outcome P X r

bind_outcome :
    {A B : Type 0} (P : A → World → Type 0) (Q : B → World → Type 0) (X : ℕ → World → Type 0)
    (r : Run A) (k : A → Cmd B)
    → Outcome P X r
    → ((a : A) (w : World) → P a w → Post Q X (k a w))
    → Outcome Q X (and_then r k)
bind_outcome P Q X (ok a w) k h next = (next a w h).outcome
bind_outcome P Q X (exited n w) k h next = h

module _ {A B : Type 0} {P : A → World → Type 0} {Q : B → World → Type 0} {X : ℕ → World → Type 0}
    {r : Run A} {k : A → Cmd B} where
  pub bind : Post P X r → ((a : A) (w : World) → P a w → Post Q X (k a w)) → Post Q X (and_then r k)
  bind p next = record { outcome = bind_outcome P Q X r k p.outcome next }

mono_outcome :
    {A : Type 0} (P Q : A → World → Type 0) (X Y : ℕ → World → Type 0) (r : Run A)
    → Outcome P X r
    → ((a : A) (w : World) → P a w → Q a w)
    → ((n : ℕ) (w : World) → X n w → Y n w)
    → Outcome Q Y r
mono_outcome P Q X Y (ok a w) h f g = f a w h
mono_outcome P Q X Y (exited n w) h f g = g n w h

module _ {A : Type 0} {P Q : A → World → Type 0} {X Y : ℕ → World → Type 0} {r : Run A} where
  pub mono_both :
      Post P X r
      → ((a : A) (w : World) → P a w → Q a w)
      → ((n : ℕ) (w : World) → X n w → Y n w)
      → Post Q Y r
  mono_both p f g = record { outcome = mono_outcome P Q X Y r p.outcome f g }

module _ {A : Type 0} {P Q : A → World → Type 0} {X : ℕ → World → Type 0} {r : Run A} where
  pub mono : Post P X r → ((a : A) (w : World) → P a w → Q a w) → Post Q X r
  mono p f = mono_both p f λ n w x. x
