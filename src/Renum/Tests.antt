-- ===== src/Renum/Tests.antt =====
-- ex_enum of c/include/csnip_renum.h, the text that c/tests/test_renum.c looks up, and the theorems
-- at the first two entries of its table.
use Prim.Native.String.{String}
use codelib.Base.{ℕ, zero, suc, ◌≤◌, ◌<◌, ◌≡◌, ◌≢◌, refl, some, List, [], ◌∷◌, ◌⊎◌, arith}
use mathlib.Core.Option.{some-injective}
use codelib.Renum.{renum_map, renum_def, value, from_str, ex_enum_table, ex_enum_from_str}
use codelib.Renum.FromStr.{text_at, Distinct, NotIn, not_eq, from_str_lem, from_str-text_at}

show_ent3 : ex_enum_from_str (some "ENT3") ≡ some 3
unfolding ex_enum_from_str renum_map value
show_ent3 = refl

show_unknown : ex_enum_from_str (some "ent3") ≡ some 5
unfolding ex_enum_from_str renum_map value
show_unknown = refl

abbrev two_names : List String
two_names = "EX_ENT0" ∷ "EX_ENT1" ∷ []

two_names_lem : renum_def "EX_" 2 ex_enum_table ≡ some two_names
unfolding renum_def renum_map
two_names_lem = refl

two_names-Distinct : Distinct two_names
unfolding Distinct NotIn
two_names-Distinct = ((not_eq "EX_ENT0" "EX_ENT1" refl, tt), (tt, tt))

from_str_lem_example :
    (i : ℕ) × (from_str "EX_" 2 ex_enum_table (some "ENT3") ≡ some i)
    × (i ≤ 1)
    × ((j : ℕ) → j < i → text_at ex_enum_table j ≢ some "ENT3")
    × ((i ≡ 1) ⊎ (text_at ex_enum_table i ≡ some "ENT3"))
from_str_lem_example =
    from_str_lem "EX_" "ENT3" 1 ex_enum_table two_names two_names_lem two_names-Distinct

once : (j : ℕ) → j ≤ 1 → text_at ex_enum_table j ≡ some "ENT0" → j ≡ 0
unfolding text_at
once zero le e = refl
once (suc zero) le e = absurd (not_eq "ENT1" "ENT0" refl (some-injective _ _ e))
once (suc (suc j)) le e = absurd (omega arith)

ent0_found_again : from_str "EX_" 2 ex_enum_table (some "ENT0") ≡ some 0
unfolding text_at
ent0_found_again =
    from_str-text_at "EX_" "ENT0" 1 0 ex_enum_table two_names two_names_lem two_names-Distinct
      (omega arith) refl once
