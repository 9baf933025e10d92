-- ===== src/Labgob/Tests.antt =====
-- Runs of the checks of lab2/labgob/labgob.go on a list node that points to its own type.
use cs426_spring2022_labs.Common.{
  ℕ, zero, suc, returns, panics, ◌≡◌, ◌+◌, ◌↔◌, ◌⊎◌, refl, inl, inr, true, false, some, List, [],
  ◌∷◌, nat_key, string_key, In, All, ℕ_discrete, string_same, Bool-cases, arith,
}
use cs426_spring2022_labs.Common.GoMap.{insert, get_or}
use cs426_spring2022_labs.Labgob.{
  Types, struct, holds, basic, State, is_checked, check_fields, check_parts, check_type,
}
use cs426_spring2022_labs.Labgob.Marks.{Reaches, parts, counted}
use cs426_spring2022_labs.Labgob.Search.{IsClosed, IsSettled, check_type_lem}
use cs426_spring2022_labs.Labgob.Calls.{Lab, decode, Ends, decode_lem}
use cs426_spring2022_labs.Labgob.Defaults.{
  Value, exported, unexported, struct, nil_pointer, pointer, plain, no_more, field, Log, warn,
  check_default1, check_default,
}

-- `type Node struct { Next *Node; data int }`
abbrev node_types : Types
node_types zero = struct (
    record { name = "Next"; is_upper = true; type_ = 1 }
    ∷ record { name = "data"; is_upper = false; type_ = 2 }
    ∷ [])
node_types (suc zero) = holds 0
node_types (suc (suc t)) = basic

abbrev universe : List ℕ
universe = 0 ∷ 1 ∷ 2 ∷ []

abbrev nothing_checked : State
nothing_checked = record { checked = []; error_count = 0 }

node_checked :
    check_type node_types 4 0 nothing_checked
    ≡ some (record { checked = (0, true) ∷ (1, true) ∷ (2, true) ∷ []; error_count = 1 })
unfolding check_type check_parts check_fields insert ℕ_discrete get_or
node_checked = refl

node_parts_there : (t : ℕ) → In t universe → All (λ u. In u universe) (parts (node_types t))
node_parts_there zero i = (inr (inl refl), (inr (inr (inl refl)), tt))
node_parts_there (suc zero) i = (inl refl, tt)
node_parts_there (suc (suc t)) i = tt

universe-IsClosed : IsClosed node_types universe
universe-IsClosed = record {
  distinct = (
    (λ h. elim h [
      | inl e ↦ absurd (cc e)
      | inr h ↦ elim h [ inl e ↦ absurd (cc e) | inr b ↦ b.0 ]
    ]),
    ((λ h. elim h [ inl e ↦ absurd (cc e) | inr b ↦ b.0 ]), ((λ b. b.0), tt)),
  );
  parts_there = node_parts_there;
}

nothing_checked-IsSettled : IsSettled node_types nothing_checked
unfolding get_or
nothing_checked-IsSettled u v h i = absurd (cc h)

check_type_lem_example :
    (s' : State) × (check_type node_types 4 0 nothing_checked ≡ some s')
    × ((u : ℕ)
        → (is_checked s' u ≡ true)
          ↔ ((is_checked nothing_checked u ≡ true) ⊎ Reaches node_types 0 u))
    × IsSettled node_types s'
    × (s'.error_count + counted node_types universe nothing_checked
        ≡ nothing_checked.error_count + counted node_types universe s')
check_type_lem_example =
    check_type_lem node_types universe 4 0 nothing_checked universe-IsClosed (inl refl)
      (omega arith) nothing_checked-IsSettled

-- A reply struct that still holds the answer of an earlier call.
abbrev used_reply : Value
used_reply = pointer (
    struct (
      field "Ok" exported (plain "bool" false) (field "Done" exported (plain "bool" true) no_more)))

abbrev empty_log : Log
empty_log = record { error_count = 0; warnings = [] }

used_reply_warned :
    check_default used_reply empty_log ≡ returns (record { error_count = 1; warnings = "Ok" ∷ [] })
unfolding check_default check_default1 warn string_same Bool-cases
used_reply_warned = refl

-- A value of the type `Node`, whose second field is not exported.
abbrev node_value : Value
node_value =
    struct (field "Next" exported nil_pointer (field "data" unexported (plain "int" true) no_more))

node_value_panics : check_default node_value empty_log ≡ panics
unfolding check_default check_default1
node_value_panics = refl

abbrev fresh : Lab
fresh = record { state = nothing_checked; warnings = [] }

-- `type Reply struct { Ok, Done bool }` is 1, and `*Reply` is 0.
abbrev reply_types : Types
reply_types zero = holds 1
reply_types (suc zero) = struct (
    record { name = "Ok"; is_upper = true; type_ = 2 }
    ∷ record { name = "Done"; is_upper = true; type_ = 2 }
    ∷ [])
reply_types (suc (suc t)) = basic

reply_parts_there : (t : ℕ) → In t universe → All (λ u. In u universe) (parts (reply_types t))
reply_parts_there zero i = (inr (inl refl), tt)
reply_parts_there (suc zero) i = (inr (inr (inl refl)), (inr (inr (inl refl)), tt))
reply_parts_there (suc (suc t)) i = tt

replies-IsClosed : IsClosed reply_types universe
replies-IsClosed = record { distinct = universe-IsClosed.distinct; parts_there = reply_parts_there }

replies-IsSettled : IsSettled reply_types nothing_checked
unfolding get_or
replies-IsSettled u v h i = absurd (cc h)

decode_lem_example :
    Ends reply_types universe used_reply fresh (decode reply_types 4 0 used_reply fresh)
decode_lem_example =
    decode_lem reply_types universe 4 0 used_reply fresh replies-IsClosed (inl refl) (omega arith)
      replies-IsSettled
