-- ===== src/Labgob/Calls.antt =====
-- The calls of lab2/labgob/labgob.go, up to the call of `encoding/gob` that each ends with.
use cs426_spring2022_labs.Common.{
  ℕ, ◌+◌, ◌<◌, ◌≡◌, refl, sym, [], ◌∷◌, ◌∙◌, ap, String, ◌&&◌, Option, none, some, List, length, In,
  ltb, if◌then◌else◌, subst, Outcome, returns, panics, ◌>>=◌,
}
use cs426_spring2022_labs.Labgob.{Types, State, is_checked, check_type}
use cs426_spring2022_labs.Labgob.Marks.{counted, lower}
use cs426_spring2022_labs.Labgob.Search.{IsClosed, IsSettled, check_type_lem}
use cs426_spring2022_labs.Labgob.Defaults.{
  Value, exported, hidden, Log, Checks, passes, stops, check_default, non_defaults,
  check_default_lem,
}

-- The package's variables, and the warnings about defaults that were printed.
pub record Lab : Type 0 where
  pub state : State
  pub warnings : List String

-- `checkValue` of a value of type `t`, and what follows it; `none` is out of fuel.
abbrev pub with_state : Lab → Option State → Option Lab
with_state lab none = none
with_state lab (some s) = some (record lab { state = s })

unfoldable pub check_value : Types → (fuel t : ℕ) → Lab → Option Lab
check_value types fuel t lab = with_state lab (check_type types fuel t lab.state)

-- `Decode`: the count of errors is the one that the search of the types goes on.
abbrev pub with_log : State → Log → Lab
with_log s l = record { state = record s { error_count = l.error_count }; warnings = l.warnings }

unfoldable pub warn_of : Value → Option Lab → Option (Outcome Lab)
unfolding check_default
warn_of value none = none
warn_of value (some lab) =
    let l : Log = record { error_count = lab.state.error_count; warnings = lab.warnings } in
    some (check_default value l >>= λ l'. returns (with_log lab.state l'))

unfoldable pub decode : Types → (fuel t : ℕ) → Value → Lab → Option (Outcome Lab)
unfolding check_value warn_of
decode types fuel t value lab = warn_of value (check_value types fuel t lab)

-- What a call of `Decode` does: `mid` is the count between the two checks.
pub record Decodes (types : Types) (universe : List ℕ) (value : Value) (lab lab' : Lab)
    : Type 0 where
  pub settled : IsSettled types lab'.state
  pub mid : ℕ
  pub types_counted :
      mid + counted types universe lab.state
      ≡ lab.state.error_count + counted types universe lab'.state
  pub values_counted : lab'.state.error_count ≡ mid + non_defaults value 3
  pub warned :
      length lab'.warnings
      ≡ length lab.warnings + (if ltb mid 1 && ltb 0 (non_defaults value 3) then 1 else 0)

-- How a call of `Decode` ends, up to the call of `gob`.
pub data Ends (types : Types) (universe : List ℕ) (value : Value) (lab : Lab)
    : Option (Outcome Lab) → Type 0 where
  comes_to_gob :
      hidden value exported 3 ≡ 0
      → (lab' : Lab) → Decodes types universe value lab lab'
      → Ends types universe value lab (some (returns lab'))
  finds_hidden : 0 < hidden value exported 3 → Ends types universe value lab (some panics)

counted-error_count :
    (types : Types) (ts : List ℕ) (s : State) (n : ℕ)
    → counted types ts (record s { error_count = n }) ≡ counted types ts s
unfolding counted
counted-error_count types [] s n = refl
counted-error_count types (t ∷ ts) s n =
    ap (λ m. (if is_checked s t then lower (types t) else 0) + m) (counted-error_count types ts s n)

warn_of-Ends :
    (types : Types) (universe : List ℕ) (value : Value) (lab : Lab) (s : State) (o : Outcome Log)
    → IsSettled types s
    → s.error_count + counted types universe lab.state
      ≡ lab.state.error_count + counted types universe s
    → Checks
        (non_defaults value 3)
        (hidden value exported 3)
        (record { error_count = s.error_count; warnings = lab.warnings })
        o
    → Ends types universe value lab (some (o >>= λ l'. returns (with_log s l')))
warn_of-Ends types universe value lab s o settled errors (stops p) = finds_hidden p
warn_of-Ends types universe value lab s o settled errors (passes none_hidden l' w) =
    comes_to_gob none_hidden (with_log s l') (record {
      settled = settled;
      mid = s.error_count;
      types_counted =
          errors
          ∙ ap (λ n. lab.state.error_count + n) (sym (counted-error_count types universe s _));
      values_counted = w.counts;
      warned = w.prints;
    })

-- With fuel for one round more than there are types, `Decode` panics if the value has a plain value, within
-- three levels of it, that is reached through a field that is not exported; otherwise it comes to its
-- call of `gob`. Then the count of errors has grown by the lower-case fields of the types that are newly
-- checked and by the values other than the default; and a warning was printed for such a value exactly if
-- no error was counted before and no newly checked type has a lower-case field.
pub decode_lem :
    (types : Types) (universe : List ℕ) (fuel t : ℕ) (value : Value) (lab : Lab)
    → IsClosed types universe
    → In t universe
    → length universe < fuel
    → IsSettled types lab.state
    → Ends types universe value lab (decode types fuel t value lab)
unfolding decode check_value warn_of
decode_lem types universe fuel t value lab c i enough settled =
    let (s, q, reached, settled', errors) =
      check_type_lem types universe fuel t lab.state c i enough settled in
    let l : Log = record { error_count = s.error_count; warnings = lab.warnings } in
    subst (Ends types universe value lab) (sym (ap (λ o. warn_of value (with_state lab o)) q)) (
      warn_of-Ends types universe value lab s (check_default value l) settled' errors
        (check_default_lem value l))
