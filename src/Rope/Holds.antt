-- ===== src/Rope/Holds.antt =====
-- Which tree of texts a rope of c/cl_rope stands for, and what the operations make of it.
use codelib.Base.{
  ℕ, zero, suc, ◌+◌, ◌%◌, ◌<◌, ◌≡◌, ◌≢◌, refl, ◌∙◌, Option, none, some, List, [], ◌++◌, ◌==◌,
  if◌then◌else◌, arith,
}
use codelib.Rope.{
  Ptr, Node, Store, done, leaf_of, clear_leaf, set_at, set_rope, tear_rope, join_rope, both,
  print_rope, hello, world, main,
}

-- A rope as a tree of texts.
pub data Tree : Type 0 where
  empty : Tree
  text : List ℕ → Tree
  join : Tree → Tree → Tree

unfoldable pub flat : Tree → List ℕ
flat empty = []
flat (text str) = str
flat (join t u) = flat t ++ flat u

-- How many joins there are.
unfoldable pub joins : Tree → ℕ
joins empty = 0
joins (text str) = 0
joins (join t u) = 1 + (joins t + joins u)

-- The node at an address stands for the tree: an inner node has a 0 for its first byte, a leaf
-- has a text and another first byte.
unfoldable pub Holds : Store → Ptr → Tree → Type 0
Holds s r empty = r ≡ 0
Holds s r (text str) =
    (n : Node) × (r ≢ 0) × (s.nodes r ≡ some n) × (leaf_of n ≢ 0) × (s.texts n.word ≡ some str)
Holds s r (join t u) =
    (n : Node) × (r ≢ 0)
    × (s.nodes r ≡ some n)
    × (leaf_of n ≡ 0)
    × Holds s n.left t
    × Holds s n.right u

at_null : (fuel : ℕ) (s : Store) → print_rope (suc fuel) 0 s ≡ done []
unfolding print_rope
at_null fuel s = refl

-- What `print_rope` does at an address where there is a node.
at_leaf :
    (fuel r : ℕ) (n : Node) (str : List ℕ) (s : Store)
    → r ≢ 0
    → s.nodes r ≡ some n
    → leaf_of n ≢ 0
    → s.texts n.word ≡ some str
    → print_rope (suc fuel) r s ≡ done str
unfolding print_rope
at_leaf fuel zero n str s nz e l x = absurd (nz refl)
at_leaf fuel (suc r) n str s nz e l x = ground (arith, e, l, x)

at_inner :
    (fuel r : ℕ) (n : Node) (s : Store)
    → r ≢ 0
    → s.nodes r ≡ some n
    → leaf_of n ≡ 0
    → print_rope (suc fuel) r s ≡ both (print_rope fuel n.left s) (print_rope fuel n.right s)
unfolding print_rope
at_inner fuel zero n s nz e l = absurd (nz refl)
at_inner fuel (suc r) n s nz e l = ground (arith, e, l)

-- With more fuel than there are joins, `print_rope` prints the texts of the tree that a rope
-- holds, from left to right.
pub print_rope-flat :
    (t : Tree) (fuel : ℕ) (r : Ptr) (s : Store)
    → Holds s r t
    → joins t < fuel
    → print_rope fuel r s ≡ done (flat t)
unfolding Holds flat joins
print_rope-flat t zero r s h enough = absurd (omega arith)
print_rope-flat empty (suc fuel) r s h enough = rw h (at_null fuel s)
print_rope-flat (text str) (suc fuel) r s (n, nz, e, l, x) enough = at_leaf fuel r n str s nz e l x
print_rope-flat (join t u) (suc fuel) r s (n, nz, e, l, h, k) enough =
    at_inner fuel r n s nz e l ∙ (λ i.
      both (print_rope-flat t fuel n.left s h (omega arith) i)
        (print_rope-flat u fuel n.right s k (omega arith) i))

-- The node at an address is none of those of the rope.
unfoldable pub Apart : Ptr → Store → Ptr → Tree → Type 0
Apart q s r empty = Unit {0}
Apart q s r (text str) = q ≢ r
Apart q s r (join t u) =
    (q ≢ r) × ((n : Node) → s.nodes r ≡ some n → Apart q s n.left t × Apart q s n.right u)

-- A rope holds what it held when a node elsewhere is written.
Holds-elsewhere :
    (t : Tree) (q r : Ptr) (x : Option Node) (s : Store)
    → Holds s r t
    → Apart q s r t
    → Holds (record s { nodes = set_at s.nodes q x }) r t
unfolding Holds Apart
Holds-elsewhere empty q r x s h a = h
Holds-elsewhere (text str) q r x s (n, nz, e, l, y) a = (n, nz, ground (arith, a, e), l, y)
Holds-elsewhere (join t u) q r x s (n, nz, e, l, h, k) (a, b) = (
  n,
  nz,
  ground (arith, a, e),
  l,
  Holds-elsewhere t q n.left x s h (b n e).0,
  Holds-elsewhere u q n.right x s k (b n e).1,
)

-- Where there is a node at `r` that is none of the two ropes', `join_rope` returns, and from then
-- on `r` holds the join of what the two hold.
pub join_rope-Holds :
    (t u : Tree) (r r1 r2 : Ptr) (n : Node) (s : Store)
    → r ≢ 0
    → s.nodes r ≡ some n
    → Holds s r1 t
    → Holds s r2 u
    → Apart r s r1 t
    → Apart r s r2 u
    → (s' : Store) × (join_rope r r1 r2 s ≡ done s') × Holds s' r (join t u)
unfolding join_rope Holds
join_rope-Holds t u r r1 r2 n s nz e h k a b = (
  record s { nodes = set_at s.nodes r (some m) },
  rw (join_rope, e) refl,
  (
    m,
    nz,
    ground arith,
    omega arith,
    Holds-elsewhere t r r1 (some m) s h a,
    Holds-elsewhere u r r2 (some m) s k b,
  ),
)
  where
    m : Node
    m = record { left = r1; right = r2; word = clear_leaf n.word }

-- Where there is a node at `r` and `strdup` returns an address whose first byte is not 0,
-- `set_rope` returns, and from then on `r` holds the text.
pub set_rope-Holds :
    (r copy : Ptr) (str : List ℕ) (n : Node) (s : Store)
    → r ≢ 0
    → s.nodes r ≡ some n
    → copy % 256 ≢ 0
    → (s' : Store) × (set_rope r copy str s ≡ done s') × Holds s' r (text str)
unfolding set_rope Holds
set_rope-Holds r copy str n s nz e odd = (
  record s {
    nodes = set_at s.nodes r (some (record n { word = copy }));
    texts = if copy == 0 then s.texts else set_at s.texts copy (some str);
  },
  rw (set_rope, e) refl,
  (record n { word = copy }, nz, ground arith, odd, ground (arith, odd)),
)

-- Where `strdup` returns an address whose first byte is 0, the rope with the text just set is
-- taken for an inner node: `print_rope` prints, not the text, but whatever its uninitialised
-- `left` and `right` lead to.
pub set_rope_misread :
    (fuel : ℕ) (r copy : Ptr) (str : List ℕ) (n : Node) (s : Store)
    → r ≢ 0
    → s.nodes r ≡ some n
    → copy % 256 ≡ 0
    → (s' : Store) × (set_rope r copy str s ≡ done s')
      × (print_rope (suc fuel) r s' ≡ both (print_rope fuel n.left s') (print_rope fuel n.right s'))
unfolding set_rope
set_rope_misread fuel r copy str n s nz e even = (
  s',
  rw (set_rope, e) refl,
  at_inner fuel r (record n { word = copy }) s' nz (ground arith) even,
)
  where
    s' : Store
    s' = record s {
      nodes = set_at s.nodes r (some (record n { word = copy }));
      texts = if copy == 0 then s.texts else set_at s.texts copy (some str);
    }

-- Where the three ropes of `main` are nodes at different addresses, none of them NULL, the two
-- copies of the texts are at different addresses too, the first byte of neither copy's address is
-- 0, and the fuel is at least 2, `main` returns, has printed "hello" and "world", and has freed
-- both copies; no other text is touched.
pub main_lem :
    (fuel r1 r2 r3 copy1 copy2 : ℕ) (n1 n2 n3 : Node) (s : Store)
    → 1 < fuel
    → s.nodes r1 ≡ some n1
    → s.nodes r2 ≡ some n2
    → s.nodes r3 ≡ some n3
    → (r1 ≢ 0) × (r2 ≢ 0) × (r3 ≢ 0)
    → (r1 ≢ r2) × (r1 ≢ r3) × (r2 ≢ r3)
    → (copy1 % 256 ≢ 0) × (copy2 % 256 ≢ 0) × (copy1 ≢ copy2)
    → (s' : Store) × (main fuel r1 r2 r3 copy1 copy2 s ≡ done (hello ++ world, s'))
      × (s'.texts copy1 ≡ none)
      × (s'.texts copy2 ≡ none)
      × ((p : Ptr) → p ≢ copy1 → p ≢ copy2 → s'.texts p ≡ s.texts p)
unfolding main set_rope join_rope tear_rope print_rope
main_lem zero r1 r2 r3 copy1 copy2 n1 n2 n3 s enough e1 e2 e3 nz d c = absurd (omega arith)
main_lem (suc zero) r1 r2 r3 copy1 copy2 n1 n2 n3 s enough e1 e2 e3 nz d c = absurd (omega arith)
main_lem (suc (suc fuel)) zero r2 r3 copy1 copy2 n1 n2 n3 s enough e1 e2 e3 (z1, z2, z3) d c =
    absurd (z1 refl)
main_lem (suc (suc fuel)) (suc r1) zero r3 copy1 copy2 n1 n2 n3 s enough e1 e2 e3 (z1, z2, z3) d c =
    absurd (z2 refl)
main_lem (suc (suc fuel)) (suc r1) (suc r2) zero copy1 copy2 n1 n2 n3 s enough e1 e2 e3 (z1, z2, z3)
      d c =
    absurd (z3 refl)
main_lem (suc (suc fuel)) (suc r1) (suc r2) (suc r3) copy1 copy2 n1 n2 n3 s enough e1 e2 e3 nz d c =
    (
      record s {
        nodes =
            set_at
              (set_at (set_at s.nodes (suc r1) (some (record n1 { word = copy1 }))) (suc r2)
                (some (record n2 { word = copy2 })))
              (suc r3) (some (record { left = suc r1; right = suc r2; word = clear_leaf n3.word }));
        texts =
            set_at
              (set_at (set_at (set_at s.texts copy1 (some hello)) copy2 (some world)) copy1 none)
              copy2 none;
      },
      ground arith,
      ground arith,
      ground arith,
      λ p a b. ground arith,
    )
