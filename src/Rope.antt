-- ===== src/Rope.antt =====
-- c/cl_rope: ropes on a heap whose nodes keep a leaf flag in the first byte of the text's pointer.
pub mod Holds
mod Tests
use codelib.Base.{
  ℕ, zero, suc, ◌+◌, ◌*◌, ◌/◌, ◌%◌, Option, none, some, List, [], ◌∷◌, ◌++◌, ◌==◌, if◌then◌else◌,
}

-- A pointer; 0 is NULL.
abbrev pub Ptr : Type 0
Ptr = ℕ

-- `struct rope`: `word` is the union, the pointer `pstr` or, in its first byte, `leaf`.
pub record Node : Type 0 where
  pub left : Ptr
  pub right : Ptr
  pub word : ℕ

-- On a little-endian machine the first byte is the lowest.
abbrev pub leaf_of : Node → ℕ
leaf_of n = n.word % 256

-- `leaf = 0`
abbrev pub clear_leaf : ℕ → ℕ
clear_leaf word = word / 256 * 256

-- The nodes that there are, and the texts on the heap that are not freed.
pub record Store : Type 0 where
  pub nodes : Ptr → Option Node
  pub texts : Ptr → Option (List ℕ)

pub data Outcome (A : Type 0) : Type 0 where
  done : A → Outcome A
  -- a pointer that leads nowhere was used or freed
  fault : Outcome A
  out_of_fuel : Outcome A

abbrev pub set_at : {A : Type 0} → (Ptr → Option A) → Ptr → Option A → Ptr → Option A
set_at f p x q = if q == p then x else f q

-- `copy` is what `strdup` returns: NULL, or a new text.
unfoldable pub set_rope : Ptr → Ptr → List ℕ → Store → Outcome Store
set_rope r copy str s = elim (s.nodes r) [
  | none ↦ fault
  | some n ↦ done (record s {
    nodes = set_at s.nodes r (some (record n { word = copy }));
    texts = if copy == 0 then s.texts else set_at s.texts copy (some str);
  })
]

-- `free(r->pstr)`
unfoldable pub tear_rope : Ptr → Store → Outcome Store
tear_rope r s = elim (s.nodes r) [
  | none ↦ fault
  | some n ↦ if n.word == 0 then done s else elim (s.texts n.word) [
    | none ↦ fault
    | some str ↦ done (record s { texts = set_at s.texts n.word none })
  ]
]

unfoldable pub join_rope : Ptr → Ptr → Ptr → Store → Outcome Store
join_rope r r1 r2 s = elim (s.nodes r) [
  | none ↦ fault
  | some n ↦ done (record s {
    nodes = set_at s.nodes r (some (record { left = r1; right = r2; word = clear_leaf n.word }));
  })
]

-- What is printed first and what is printed then.
abbrev pub both : Outcome (List ℕ) → Outcome (List ℕ) → Outcome (List ℕ)
both (done a) (done b) = done (a ++ b)
both (done a) fault = fault
both (done a) out_of_fuel = out_of_fuel
both fault q = fault
both out_of_fuel q = out_of_fuel

-- `printf("%s", r->pstr)`
abbrev print_text : Option (List ℕ) → Outcome (List ℕ)
print_text none = fault
print_text (some str) = done str

-- The bytes that are printed. The fuel bounds the depth of the calls.
unfoldable pub print_rope : ℕ → Ptr → Store → Outcome (List ℕ)
print_rope zero r s = out_of_fuel
print_rope (suc fuel) zero s = done []
print_rope (suc fuel) (suc r) s = elim (s.nodes (suc r)) [
  | none ↦ fault
  | some n ↦
      let inner = both (print_rope fuel n.left s) (print_rope fuel n.right s) in
      if leaf_of n == 0 then inner else print_text (s.texts n.word)
]

abbrev pub then_do : {A B : Type 0} → Outcome A → (A → Outcome B) → Outcome B
then_do (done a) k = k a
then_do fault k = fault
then_do out_of_fuel k = out_of_fuel

abbrev pub hello : List ℕ
hello = b'h' ∷ b'e' ∷ b'l' ∷ b'l' ∷ b'o' ∷ []

abbrev pub world : List ℕ
world = b'w' ∷ b'o' ∷ b'r' ∷ b'l' ∷ b'd' ∷ []

-- `main`, with its three ropes at some addresses and what the two `strdup` return: what it has
-- printed, and the store that it leaves.
unfoldable pub main : ℕ → (r1 r2 r3 copy1 copy2 : Ptr) → Store → Outcome (List ℕ × Store)
main fuel r1 r2 r3 copy1 copy2 s = then_do (set_rope r1 copy1 hello s) λ s1.
    then_do (set_rope r2 copy2 world s1) λ s2. then_do (join_rope r3 r1 r2 s2) λ s3.
      then_do (print_rope fuel r3 s3)
        λ out. then_do (tear_rope r1 s3) λ s4. then_do (tear_rope r2 s4) λ s5. done (out, s5)
