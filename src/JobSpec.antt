-- ===== src/JobSpec.antt =====
-- internal/jobspec/jobspec.go: forgerun.yml. The YAML decoder is a parameter; a map is the list of
-- its entries, in any order.
pub mod Choice
pub mod Entries
use grid_runner.Prelude.{
  ℕ, String, Bool, true, false, Option, none, some, List, [], ◌∷◌, ◌==◌, if◌then◌else◌, text_lt,
}
use grid_runner.Fallible.{Result, ok, err, malformed}

pub record SpecJob : Type 0 where
  pub name : String
  pub image : String
  pub commands : List String
  pub env : List (String × String)
  pub labels : List String

abbrev pub Spec : Type 0
Spec = List (String × SpecJob)

abbrev pub has_commands : List String → Bool
has_commands [] = false
has_commands (c ∷ cs) = true

unfoldable pub all_have_commands : Spec → Bool
all_have_commands [] = true
all_have_commands ((name, j) ∷ rest) =
    if has_commands j.commands then all_have_commands rest else false

-- `j.Name = name; s.Jobs[name] = j`.
unfoldable pub set_names : Spec → Spec
set_names [] = []
set_names ((name, j) ∷ rest) = (name, record j { name = name }) ∷ set_names rest

unfoldable pub checked : Option Spec → Result Spec
checked none = err malformed
checked (some []) = err malformed
checked (some (entry ∷ entries)) =
    if all_have_commands (entry ∷ entries) then ok (set_names (entry ∷ entries)) else err malformed

unfoldable pub parse : (List ℕ → Option Spec) → List ℕ → Result Spec
parse decode text = checked (decode text)

unfoldable pub lookup : String → Spec → Option SpecJob
lookup k [] = none
lookup k ((name, j) ∷ rest) = if name == k then some j else lookup k rest

-- `sort.Strings(names); names[0]`.
unfoldable pub least : String → Spec → String
least m [] = m
least m ((name, j) ∷ rest) = least (if text_lt name m then name else m) rest

-- Without a job named test; `none` is the index out of range of an empty map.
unfoldable pub first_by_name : Spec → Option SpecJob
first_by_name [] = none
first_by_name ((name, j) ∷ rest) = lookup (least name rest) ((name, j) ∷ rest)

abbrev pub or_else : Option SpecJob → Option SpecJob → Option SpecJob
or_else (some j) other = some j
or_else none other = other

unfoldable pub primary : Spec → Option SpecJob
primary s = or_else (lookup "test" s) (first_by_name s)
