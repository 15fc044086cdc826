-- ===== src/Rope/Tests.antt =====
-- The main of c/cl_rope/rope.c at concrete addresses, and the theorems on ropes there.
use codelib.Base.{◌≡◌, ◌≢◌, refl, none, some, ◌++◌, ◌==◌, if◌then◌else◌, arith}
use codelib.Rope.{Ptr, Node, Store, done, set_rope, join_rope, both, print_rope, hello, world, main}
use codelib.Rope.Holds.{
  text, join, flat, joins, Holds, Apart, print_rope-flat, join_rope-Holds, set_rope-Holds,
  set_rope_misread, main_lem,
}

abbrev blank : Node
blank = record { left = 0; right = 0; word = 0 }

abbrev leaf_at : Ptr → Node
leaf_at p = record { left = 0; right = 0; word = p }

-- Three nodes that nothing is written to.
abbrev blank_store : Store
blank_store = record { nodes = λ p. some blank; texts = λ p. none }

-- "hello" at the node 8, "world" at the node 16.
abbrev two_texts : Store
two_texts = record {
  nodes = λ p.
      if p == 8 then some (leaf_at 1001) else if p == 16 then some (leaf_at 1002) else some blank;
  texts = λ p. if p == 1001 then some hello else if p == 1002 then some world else none;
}

-- And their join at the node 24.
abbrev joined : Store
joined = record two_texts {
  nodes =
      λ p. if p == 24 then some (record { left = 8; right = 16; word = 0 }) else two_texts.nodes p;
}

main_lem_example :
    (s' : Store) × (main 2 8 16 24 1001 1002 blank_store ≡ done (hello ++ world, s'))
    × (s'.texts 1001 ≡ none)
    × (s'.texts 1002 ≡ none)
    × ((p : Ptr) → p ≢ 1001 → p ≢ 1002 → s'.texts p ≡ none)
main_lem_example =
    main_lem 2 8 16 24 1001 1002 blank blank blank blank_store (omega arith) refl refl refl
      (
        (λ h. absurd (omega (arith, h))),
        (λ h. absurd (omega (arith, h))),
        λ h. absurd (omega (arith, h)),
      )
      (
        (λ h. absurd (omega (arith, h))),
        (λ h. absurd (omega (arith, h))),
        λ h. absurd (omega (arith, h)),
      )
      (
        (λ h. absurd (omega (arith, h))),
        (λ h. absurd (omega (arith, h))),
        λ h. absurd (omega (arith, h)),
      )

print_rope-flat_example : print_rope 2 24 joined ≡ done (hello ++ world)
unfolding Holds flat joins
print_rope-flat_example =
    print_rope-flat (join (text hello) (text world)) 2 24 joined
      (
        record { left = 8; right = 16; word = 0 },
        (λ h. absurd (omega (arith, h))),
        refl,
        refl,
        (
          leaf_at 1001,
          (λ h. absurd (omega (arith, h))),
          refl,
          (λ h. absurd (omega (arith, h))),
          refl,
        ),
        (
          leaf_at 1002,
          (λ h. absurd (omega (arith, h))),
          refl,
          (λ h. absurd (omega (arith, h))),
          refl,
        ),
      )
      (omega arith)

join_two_texts :
    (s' : Store) × (join_rope 24 8 16 two_texts ≡ done s')
    × Holds s' 24 (join (text hello) (text world))
unfolding Holds Apart
join_two_texts =
    join_rope-Holds (text hello) (text world) 24 8 16 blank two_texts
      (λ h. absurd (omega (arith, h))) refl
      (leaf_at 1001, (λ h. absurd (omega (arith, h))), refl, (λ h. absurd (omega (arith, h))), refl)
      (leaf_at 1002, (λ h. absurd (omega (arith, h))), refl, (λ h. absurd (omega (arith, h))), refl)
      (λ h. absurd (omega (arith, h))) (λ h. absurd (omega (arith, h)))

set_first_text :
    (s' : Store) × (set_rope 8 1001 hello blank_store ≡ done s') × Holds s' 8 (text hello)
set_first_text =
    set_rope-Holds 8 1001 hello blank blank_store (λ h. absurd (omega (arith, h))) refl
      (λ h. absurd (omega (arith, h)))

misread :
    (s' : Store) × (set_rope 8 1024 hello blank_store ≡ done s')
    × (print_rope 2 8 s' ≡ both (print_rope 1 0 s') (print_rope 1 0 s'))
misread =
    set_rope_misread 1 8 1024 hello blank blank_store (λ h. absurd (omega (arith, h))) refl refl
