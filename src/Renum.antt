-- ===== src/Renum.antt =====
-- c/include/csnip_renum.h: the enumeration that the macros make of a table, and the function from
-- a text to it.
pub mod FromStr
mod Tests
use Prim.Native.String.{String, ◌++◌}
use mathlib.Core.Option.{map as option_map}
use text.Mathlib.Text.{◌==◌}
use codelib.Base.{ℕ, zero, suc, Bool, Option, none, some, List, [], ◌∷◌, if◌then◌else◌}

-- `ENTRY(a, b, c)` of a table.
pub record Entry : Type 0 where
  pub a : String
  pub b : String
  pub c : ℕ

module _ {A : Type 0} (m m1 : Entry → A → A) (nothing : A) where
  -- RENUM_MAPn, which applies `m` to the first n entries but the last of them, to which it
  -- applies `m1`; the source has it for n up to 6. `none` is a table with fewer entries, for which
  -- the expansion is no C.
  unfoldable pub renum_map : ℕ → List Entry → Option A
  renum_map zero es = some nothing
  renum_map (suc n) [] = none
  renum_map (suc zero) (e ∷ es) = some (m1 e nothing)
  renum_map (suc (suc n)) (e ∷ es) = option_map (m e) (renum_map (suc n) es)

module _ (prefix : String) where
  -- RENUM_JOIN_PREFIX and RENUM_JOIN_PREFIX1
  abbrev pub join_prefix : Entry → List String → List String
  join_prefix e tail = (prefix ++ e.a) ∷ tail

  -- RENUM_DEF: the names of the constants in order; their values are 0, 1 and so on.
  unfoldable pub renum_def : ℕ → List Entry → Option (List String)
  unfolding renum_map
  renum_def n table = renum_map join_prefix join_prefix [] n table

  -- RENUM_LAST and RENUM_LAST1
  abbrev pub last : Entry → String → String
  last e tail = tail

  abbrev pub last1 : Entry → String → String
  last1 e branch = prefix ++ e.a

  -- RENUM_END: the constant that it names.
  unfoldable pub renum_end : ℕ → List Entry → Option String
  unfolding renum_map
  renum_end n table = renum_map last last1 "" n table

  -- RENUM_COND, `strcmp(str, b) == 0 ? prefix##a : tail`; RENUM_COND1 is RENUM_LAST1.
  abbrev pub cond : String → Entry → String → String
  cond str e tail = if str == e.b then prefix ++ e.a else tail

  -- RENUM_CMP: the constant that it names.
  unfoldable pub renum_cmp : String → ℕ → List Entry → Option String
  unfolding renum_map
  renum_cmp str n table = renum_map (cond str) last1 "" n table

-- The value of the constant with a name.
unfoldable pub value : List String → String → Option ℕ
value [] x = none
value (y ∷ ys) x = let rest = value ys x in if x == y then some 0 else option_map suc rest

-- The value of what an expression names in the enumeration of the table.
abbrev pub value_in : Option (List String) → Option String → Option ℕ
value_in none x = none
value_in (some names) none = none
value_in (some names) (some x) = value names x

-- RENUM_FROM_STR; `none` for the argument is NULL.
unfoldable pub from_str : String → ℕ → List Entry → Option String → Option ℕ
unfolding renum_def renum_end renum_cmp
from_str prefix n table none = value_in (renum_def prefix n table) (renum_end prefix n table)
from_str prefix n table (some str) =
    value_in (renum_def prefix n table) (renum_cmp prefix str n table)

-- EX_ENUM_TABLE
abbrev pub ex_enum_table : List Entry
ex_enum_table =
    record { a = "ENT0"; b = "ENT0"; c = 0 }
    ∷ record { a = "ENT1"; b = "ENT1"; c = 1 }
    ∷ record { a = "ENT2"; b = "ENT2"; c = 2 }
    ∷ record { a = "ENT3"; b = "ENT3"; c = 3 }
    ∷ record { a = "ENT4"; b = "ENT4"; c = 4 }
    ∷ record { a = "ENTMAX"; b = "EX_ENTMAX"; c = 5 }
    ∷ []

-- `__renum_ex_enum_from_str`
unfoldable pub ex_enum_from_str : Option String → Option ℕ
unfolding from_str
ex_enum_from_str = from_str "EX_" 6 ex_enum_table
