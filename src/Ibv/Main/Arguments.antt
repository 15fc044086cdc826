-- ===== src/Ibv/Main/Arguments.antt =====
-- What reading the command line of c/ibtest/ibv-rc.c leaves alone.
use Prim.Native.String.{String}
use codelib.Base.{
  ℕ, ◌+◌, ◌≤◌, ◌≡◌, refl, ◌∙◌, Option, none, some, List, [], ◌∷◌, arith, Bool-cases, inl, inr,
}
use codelib.Ibv.World.{null, HeapString, Resources, World}
use codelib.Ibv.Owned.{Post, bind, mono, Owns}
use codelib.Ibv.Main.{
  Flag, port, ib_dev, ib_port, gid_idx, unknown, parse_flag, parse_flags, parse_rest, parse_args,
}

-- How many `-d` options there are.
abbrev pub dev_flags : List Flag → ℕ
dev_flags [] = 0
dev_flags (ib_dev text ∷ fs) = 1 + dev_flags fs
dev_flags (f ∷ fs) = dev_flags fs

abbrev pub named : Option HeapString → ℕ
named none = 0
named (some s) = 1

-- Reading the command line touches nothing but the configuration.
abbrev pub Parsed : Resources → World → World → Type 0
Parsed r w v = Owns r null [] [] v × (v.env ≡ w.env) × (v.res ≡ w.res)

parse_flag_lem :
    (f : Flag) (fs : List Flag) {r : Resources} {w : World}
    → Owns r null [] [] w
    → named w.config.dev_name + dev_flags (f ∷ fs) ≤ 1
    → Post
        (λ _ v. Parsed r w v × (named v.config.dev_name + dev_flags fs ≤ 1))
        (λ _. ⊥)
        (parse_flag f w)
unfolding parse_flag
parse_flag_lem (port n) fs o few = ground arith
parse_flag_lem (ib_dev t) fs o few = ground arith
parse_flag_lem (ib_port n) fs o few = ground arith
parse_flag_lem (gid_idx n) fs o few = ground arith
parse_flag_lem unknown fs o few = ground arith

parse_flags_lem :
    (fs : List Flag) {r : Resources} {w : World}
    → Owns r null [] [] w
    → named w.config.dev_name + dev_flags fs ≤ 1
    → Post (λ _ v. Parsed r w v) (λ _. ⊥) (parse_flags fs w)
unfolding parse_flags
parse_flags_lem [] o few = record { outcome = (o, refl, refl) }
parse_flags_lem (f ∷ fs) o few =
    bind (parse_flag_lem f fs o few) λ more v ((o1, same1, kept1), few1). elim (Bool-cases more) [
      | inr stop ↦ rw stop (record { outcome = (o1, same1, kept1) })
      | inl again ↦ rw again (
          mono (parse_flags_lem fs o1 few1)
            λ a u (o2, same2, kept2). (o2, same2 ∙ same1, kept2 ∙ kept1))
    ]

parse_rest_lem :
    (rest : List String) {r : Resources} {w : World}
    → Owns r null [] [] w
    → Post (λ _ v. Parsed r w v) (λ _. ⊥) (parse_rest rest w)
unfolding parse_rest
parse_rest_lem [] o = ground arith
parse_rest_lem (s ∷ []) o = ground arith
parse_rest_lem (s ∷ t ∷ r) o = ground arith

pub parse_args_lem :
    (fs : List Flag) (rest : List String) {r : Resources} {w : World}
    → Owns r null [] [] w
    → named w.config.dev_name + dev_flags fs ≤ 1
    → Post (λ _ v. Parsed r w v) (λ _. ⊥) (parse_args fs rest w)
unfolding parse_args
parse_args_lem fs rest o few = bind (parse_flags_lem fs o few) λ fine v (o1, same1, kept1).
    elim (Bool-cases fine) [
      | inr bad ↦ rw bad (record { outcome = (o1, same1, kept1) })
      | inl good ↦ rw good (
          mono (parse_rest_lem rest o1)
            λ a u (o2, same2, kept2). (o2, same2 ∙ same1, kept2 ∙ kept1))
    ]
