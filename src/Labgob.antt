-- ===== src/Labgob.antt =====
-- lab2/labgob/labgob.go: the search of a type for lower-case field names. A type is its number, and
-- `types` is what `reflect` tells of it. The encoding itself is Go's `encoding/gob`, which is not
-- modelled.
pub mod Marks
pub mod Visits
pub mod Search
pub mod Defaults
pub mod Calls
mod Tests
use cs426_spring2022_labs.Common.{
  ℕ, zero, suc, ◌+◌, String, Bool, true, false, Option, none, some, List, [], ◌∷◌, if◌then◌else◌,
  nat_key,
}
use cs426_spring2022_labs.Common.GoMap.{GoMap, get_or, insert}

-- `is_upper` is what `unicode.IsUpper` says of the first rune of the name.
pub record Field : Type 0 where
  pub name : String
  pub is_upper : Bool
  pub type_ : ℕ

pub data TypeInfo : Type 0 where
  struct : List Field → TypeInfo
  -- a slice, an array or a pointer
  holds : (elem : ℕ) → TypeInfo
  map_of : (elem key : ℕ) → TypeInfo
  basic : TypeInfo

abbrev pub Types : Type 0
Types = ℕ → TypeInfo

-- The package's variables.
pub record State : Type 0 where
  pub checked : GoMap ℕ Bool
  pub error_count : ℕ

abbrev pub is_checked : State → ℕ → Bool
is_checked s t = get_or s.checked t false

abbrev pub mark : State → ℕ → State
mark s t = record s { checked = insert s.checked t true }

-- A lower-case field is reported and counted.
abbrev pub report : Field → State → State
report f s = if f.is_upper then s else record s { error_count = suc s.error_count }

infixl 5 ◌>>=◌
abbrev pub ◌>>=◌ : Option State → (State → Option State) → Option State
none >>= f = none
some s >>= f = f s

-- The loop over the fields of a struct; `check` is the recursive call.
unfoldable pub check_fields : (ℕ → State → Option State) → List Field → State → Option State
check_fields check [] s = some s
check_fields check (f ∷ fields) s = check f.type_ (report f s) >>= check_fields check fields

-- The switch on the kind.
unfoldable pub check_parts : (ℕ → State → Option State) → TypeInfo → State → Option State
unfolding check_fields
check_parts check (struct fields) s = check_fields check fields s
check_parts check (holds elem) s = check elem s
check_parts check (map_of elem key) s = check elem s >>= check key
check_parts check basic s = some s

-- `checkType`; `none` is out of fuel.
unfoldable pub check_type : Types → (fuel : ℕ) → ℕ → State → Option State
unfolding check_parts
check_type types zero t s = none
check_type types (suc fuel) t s = elim (is_checked s t) [
  | true ↦ some s
  | false ↦ check_parts (check_type types fuel) (types t) (mark s t)
]
