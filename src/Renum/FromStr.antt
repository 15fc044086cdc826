-- ===== src/Renum/FromStr.antt =====
-- What the function of c/include/csnip_renum.h from a text to the enumeration returns.
use Prim.Native.String.{String, ◌++◌}
use mathlib.Core.Bool.{false≢true}
use mathlib.Core.Option.{map as option_map, some-injective, some-ne-none}
use text.Mathlib.Text.{◌==◌}
use text.Mathlib.TextEquality.{eq_iff}
use codelib.Base.{
  ℕ, zero, suc, ◌<◌, ◌≤◌, ◌≡◌, ◌≢◌, refl, ◌∙◌, sym, ap, subst, true, false, Bool-cases, ◌⊎◌, inl,
  inr, Option, none, some, List, [], ◌∷◌, arith, ltb, ltb→lt, not_ltb→le,
}
use codelib.Renum.{
  Entry, renum_map, join_prefix, renum_def, last, renum_end, cond, renum_cmp, value, value_in,
  from_str,
}

-- The text of the entry at a position.
unfoldable pub text_at : List Entry → ℕ → Option String
text_at [] i = none
text_at (e ∷ es) zero = some e.b
text_at (e ∷ es) (suc i) = text_at es i

name_at : List String → ℕ → Option String
name_at [] i = none
name_at (x ∷ xs) zero = some x
name_at (x ∷ xs) (suc i) = name_at xs i

unfoldable pub NotIn : String → List String → Type 0
NotIn x [] = Unit {0}
NotIn x (y ∷ ys) = (x ≢ y) × NotIn x ys

-- No two names are the same.
unfoldable pub Distinct : List String → Type 0
unfolding NotIn
Distinct [] = Unit {0}
Distinct (x ∷ xs) = NotIn x xs × Distinct xs

eq_self : (x : String) → (x == x) ≡ true
eq_self x = (eq_iff x x).1 refl

pub not_eq : (x y : String) → (x == y) ≡ false → x ≢ y
not_eq x y h e = absurd (false≢true (sym h ∙ (eq_iff x y).1 e))

-- The constant at a position has that position for its value.
NotIn-name_at :
    (xs : List String) (i : ℕ) (x y : String)
    → name_at xs i ≡ some x
    → NotIn y xs
    → (x == y) ≡ false
unfolding name_at NotIn
NotIn-name_at [] i x y e n = absurd (some-ne-none x (sym e))
NotIn-name_at (z ∷ zs) zero x y e n = elim (Bool-cases (x == y)) [
  | inl h ↦ absurd (n.0 (sym ((eq_iff x y).0 h) ∙ sym (some-injective _ _ e)))
  | inr h ↦ h
]
NotIn-name_at (z ∷ zs) (suc i) x y e n = NotIn-name_at zs i x y e n.1

value-name_at :
    (xs : List String) (i : ℕ) (x : String)
    → Distinct xs
    → name_at xs i ≡ some x
    → value xs x ≡ some i
unfolding name_at Distinct value
value-name_at [] i x d e = absurd (some-ne-none x (sym e))
value-name_at (z ∷ zs) zero x d e =
    rw (subst (λ t. (t == z) ≡ true) (some-injective _ _ e) (eq_self z)) refl
value-name_at (z ∷ zs) (suc i) x d e =
    rw (NotIn-name_at zs i x z e d.0) (ap (option_map suc) (value-name_at zs i x d.1 e))

-- What a mapped option that is there comes from.
map-some :
    {A B : Type 0} (f : A → B) (o : Option A) (y : B)
    → option_map f o ≡ some y
    → (x : A) × (o ≡ some x) × (f x ≡ y)
map-some f none y e = absurd (some-ne-none y (sym e))
map-some f (some x) y e = (x, refl, some-injective _ _ e)

-- The position of the first entry with the text, or else of the last.
First : String → ℕ → List Entry → ℕ → Type 0
First str n table i =
    (i < n)
    × ((j : ℕ) → j < i → text_at table j ≢ some str)
    × ((suc i ≡ n) ⊎ (text_at table i ≡ some str))

First-suc :
    (str : String) (n : ℕ) (e : Entry) (es : List Entry) (i : ℕ)
    → str ≢ e.b
    → First str n es i
    → First str (suc n) (e ∷ es) (suc i)
unfolding First text_at
First-suc str n e es i other (lt, before, at) =
    (omega arith, earlier, elim at [ inl end ↦ inl (ap suc end) | inr found ↦ inr found ])
  where
    earlier : (j : ℕ) → j < suc i → text_at (e ∷ es) j ≢ some str
    earlier zero h k = other (sym (some-injective _ _ k))
    earlier (suc j) h k = before j (omega arith) k

renum_cmp_lem :
    (prefix str : String) (n : ℕ) (es : List Entry) (names : List String)
    → renum_def prefix (suc n) es ≡ some names
    → (i : ℕ) × (x : String) × First str (suc n) es i
      × (renum_cmp prefix str (suc n) es ≡ some x)
      × (name_at names i ≡ some x)
unfolding renum_def renum_cmp renum_map name_at First text_at
renum_cmp_lem prefix str n [] names d = absurd (some-ne-none names (sym d))
renum_cmp_lem prefix str zero (e ∷ es) names d = (
  0,
  prefix ++ e.a,
  (omega arith, (λ j h. absurd (omega arith)), inl refl),
  refl,
  subst (λ l. name_at l 0 ≡ some (prefix ++ e.a)) (some-injective _ _ d) refl,
)
renum_cmp_lem prefix str (suc n) (e ∷ es) names d =
    let (names', d', cons) =
      map-some (join_prefix prefix e) (renum_def prefix (suc n) es) names d in
    let (i, x, first, c, k) = renum_cmp_lem prefix str n es names' d' in
    elim (Bool-cases (str == e.b)) [
      | inl same ↦ (
        0,
        prefix ++ e.a,
        (omega arith, (λ j h. absurd (omega arith)), inr (ap some (sym ((eq_iff str e.b).0 same)))),
        ap (option_map (cond prefix str e)) c ∙ rw same refl,
        subst (λ l. name_at l 0 ≡ some (prefix ++ e.a)) cons refl,
      )
      | inr other ↦ (
        suc i,
        x,
        First-suc str (suc n) e es i (not_eq str e.b other) first,
        ap (option_map (cond prefix str e)) c ∙ rw other refl,
        subst (λ l. name_at l (suc i) ≡ some x) cons k,
      )
    ]

-- Where the enumeration of a table has constants, no two of the same name, the function takes
-- every text to the value of a constant: that of the first entry with this text, or of the last
-- entry if no other has it. The table's last text is not looked at.
pub from_str_lem :
    (prefix str : String) (n : ℕ) (table : List Entry) (names : List String)
    → renum_def prefix (suc n) table ≡ some names
    → Distinct names
    → (i : ℕ) × (from_str prefix (suc n) table (some str) ≡ some i)
      × (i ≤ n)
      × ((j : ℕ) → j < i → text_at table j ≢ some str)
      × ((i ≡ n) ⊎ (text_at table i ≡ some str))
unfolding from_str First
from_str_lem prefix str n table names d distinct =
    let (i, x, (lt, before, at), c, k) = renum_cmp_lem prefix str n table names d in
    (
      i,
      (λ t. value_in (d t) (c t)) ∙ value-name_at names i x distinct k,
      omega arith,
      before,
      elim at [ inl end ↦ inl (omega arith) | inr found ↦ inr found ],
    )

-- Where the constants have different names and the entries different texts, the text of every
-- entry comes back as the value of its constant, which is the entry's position: the third column
-- of the table plays no part.
pub from_str-text_at :
    (prefix str : String) (n k : ℕ) (table : List Entry) (names : List String)
    → renum_def prefix (suc n) table ≡ some names
    → Distinct names
    → k ≤ n
    → text_at table k ≡ some str
    → ((j : ℕ) → j ≤ n → text_at table j ≡ some str → j ≡ k)
    → from_str prefix (suc n) table (some str) ≡ some k
from_str-text_at prefix str n k table names d distinct le here once =
    let (i, e, le', before, at) = from_str_lem prefix str n table names d distinct in
    e
    ∙ ap some (elim at [
      | inl end ↦ elim (Bool-cases (ltb k i)) [
        | inl lt ↦ absurd (before k (ltb→lt k i lt) here)
        | inr ge ↦ omega (arith, not_ltb→le k i ge)
      ]
      | inr found ↦ once i le' found
    ])

renum_end_lem :
    (prefix : String) (n : ℕ) (es : List Entry) (names : List String)
    → renum_def prefix (suc n) es ≡ some names
    → (x : String) × (renum_end prefix (suc n) es ≡ some x) × (name_at names n ≡ some x)
unfolding renum_def renum_end renum_map name_at
renum_end_lem prefix n [] names d = absurd (some-ne-none names (sym d))
renum_end_lem prefix zero (e ∷ es) names d = (
  prefix ++ e.a,
  refl,
  subst (λ l. name_at l 0 ≡ some (prefix ++ e.a)) (some-injective _ _ d) refl,
)
renum_end_lem prefix (suc n) (e ∷ es) names d =
    let (names', d', cons) =
      map-some (join_prefix prefix e) (renum_def prefix (suc n) es) names d in
    let (x, c, k) = renum_end_lem prefix n es names' d' in
    (x, ap (option_map (last prefix e)) c, subst (λ l. name_at l (suc n) ≡ some x) cons k)

-- Where the constants have different names, NULL is taken to the value of the last one.
from_str_null :
    (prefix : String) (n : ℕ) (table : List Entry) (names : List String)
    → renum_def prefix (suc n) table ≡ some names
    → Distinct names
    → from_str prefix (suc n) table none ≡ some n
unfolding from_str
from_str_null prefix n table names d distinct =
    let (x, c, k) = renum_end_lem prefix n table names d in
    (λ t. value_in (d t) (c t)) ∙ value-name_at names n x distinct k
