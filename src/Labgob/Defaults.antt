-- ===== src/Labgob/Defaults.antt =====
-- lab2/labgob/labgob.go: the warning about decoding into a value that is not the default. A value is
-- the tree that `reflect` shows of it, with how `reflect` reached each of its parts.
use Prim.Native.String.{◌++◌ as concat}
use cs426_spring2022_labs.Common.{
  ℕ, zero, suc, ◌+◌, ◌≡◌, String, ite, Bool, true, false, ◌&&◌, List, [], ◌∷◌, ◌++◌, ltb, length,
  not, Outcome, returns, panics, ◌>>=◌, ◌<◌, refl, length-append, if◌then◌else◌, string_key, arith,
}

-- Of a field: whether its name is exported, and if not, whether it is embedded. Of a value: whether it was
-- reached through such fields, so that `Interface` of it panics.
pub data Visibility : Type 0 where
  exported embedded unexported : Visibility

abbrev pub is_exported : Visibility → Bool
is_exported exported = true
is_exported embedded = false
is_exported unexported = false

-- `Field` of `reflect`: what is inside a field that is not exported stays hidden, unless that field is
-- embedded and the one inside is exported.
abbrev pub field_visibility : (value field : Visibility) → Visibility
field_visibility unexported field = unexported
field_visibility exported field = field
field_visibility embedded field = field

mutual
  pub data Value : Type 0 where
    struct : Fields → Value
    nil_pointer : Value
    pointer : Value → Value
    -- a Boolean, a number or a string: its type's name, and whether it is the default
    plain : (type_name : String) → (is_default : Bool) → Value
    other : Value

  pub data Fields : Type 0 where
    no_more : Fields
    field : String → Visibility → Value → Fields → Fields

-- The count of errors and the warnings printed, each by what it names.
pub record Log : Type 0 where
  pub error_count : ℕ
  pub warnings : List String

-- The innermost case: a warning is printed only if nothing was counted before.
unfoldable pub warn : (name type_name : String) → Log → Log
warn name type_name l = record {
  error_count = suc l.error_count;
  warnings =
      if ltb l.error_count 1
      then l.warnings ++ ite (string_key.same name "") type_name name ∷ []
      else l.warnings;
}

abbrev pub field_name : (name name1 : String) → String
field_name name name1 = ite (string_key.same name "") name1 (concat name (concat "." name1))

unfoldable mutual
  unfolding warn

  -- `checkDefault1`
  pub check_default1 : Value → Visibility → (depth : ℕ) → String → Log → Outcome Log
  check_default1 (struct fields) seen depth name l =
      if ltb 3 depth then returns l else check_fields1 fields seen depth name l
  check_default1 nil_pointer seen depth name l = returns l
  check_default1 (pointer value) seen depth name l =
      if ltb 3 depth then returns l else check_default1 value seen (suc depth) name l
  check_default1 (plain type_name is_default) seen depth name l =
      if ltb 3 depth
      then returns l
      else if not (is_exported seen)
      then panics
      else if is_default
      then returns l
      else returns (warn name type_name l)
  check_default1 other seen depth name l = returns l

  -- The loop over the fields.
  pub check_fields1 : Fields → Visibility → (depth : ℕ) → String → Log → Outcome Log
  check_fields1 no_more seen depth name l = returns l
  check_fields1 (field name1 visibility value fields) seen depth name l =
      check_default1 value (field_visibility seen visibility) (suc depth) (field_name name name1) l
      >>= check_fields1 fields seen depth name

-- `checkDefault`; `other` stands for nil.
unfoldable pub check_default : Value → Log → Outcome Log
unfolding check_default1
check_default value l = check_default1 value exported 1 "" l

-- The plain values other than the default within `levels` of a value.
abbrev mutual
  pub non_defaults : Value → (levels : ℕ) → ℕ
  non_defaults value zero = 0
  non_defaults (struct fields) (suc levels) = non_default_fields fields levels
  non_defaults nil_pointer (suc levels) = 0
  non_defaults (pointer value) (suc levels) = non_defaults value levels
  non_defaults (plain type_name is_default) (suc levels) = if is_default then 0 else 1
  non_defaults other (suc levels) = 0

  pub non_default_fields : Fields → (levels : ℕ) → ℕ
  non_default_fields no_more levels = 0
  non_default_fields (field name visibility value fields) levels =
      non_defaults value levels + non_default_fields fields levels

-- The plain values within `levels` of a value that are reached through a field that is not exported.
abbrev mutual
  pub hidden : Value → Visibility → (levels : ℕ) → ℕ
  hidden value seen zero = 0
  hidden (struct fields) seen (suc levels) = hidden_fields fields seen levels
  hidden nil_pointer seen (suc levels) = 0
  hidden (pointer value) seen (suc levels) = hidden value seen levels
  hidden (plain type_name is_default) seen (suc levels) = if is_exported seen then 0 else 1
  hidden other seen (suc levels) = 0

  pub hidden_fields : Fields → Visibility → (levels : ℕ) → ℕ
  hidden_fields no_more seen levels = 0
  hidden_fields (field name visibility value fields) seen levels =
      hidden value (field_visibility seen visibility) levels + hidden_fields fields seen levels

-- What the check of values with `n` non-defaults does to the log.
pub record Warns (n : ℕ) (l l' : Log) : Type 0 where
  pub counts : l'.error_count ≡ l.error_count + n
  pub prints :
      length l'.warnings ≡ length l.warnings + (if ltb l.error_count 1 && ltb 0 n then 1 else 0)

Warns-none : (l : Log) → Warns 0 l l
Warns-none l = record { counts = omega arith; prints = ground arith }

Warns-append : (m n : ℕ) (l l₁ l₂ : Log) → Warns m l l₁ → Warns n l₁ l₂ → Warns (m + n) l l₂
Warns-append m n l l₁ l₂ a b = record {
  counts = omega (arith, a.counts, b.counts);
  prints = ground (arith, a.counts, a.prints, b.prints);
}

Warns-warn : (name type_name : String) (l : Log) → Warns 1 l (warn name type_name l)
unfolding warn
Warns-warn name type_name l = record {
  counts = omega arith;
  prints =
      ground (arith, length-append l.warnings (ite (string_key.same name "") type_name name ∷ []));
}

-- How the check of values ends that have `n` non-defaults and `h` hidden ones.
pub data Checks (n h : ℕ) (l : Log) : Outcome Log → Type 0 where
  passes : h ≡ 0 → (l' : Log) → Warns n l l' → Checks n h l (returns l')
  stops : 0 < h → Checks n h l panics

Checks-none : (l : Log) → Checks 0 0 l (returns l)
Checks-none l = passes refl l (Warns-none l)

Checks-after :
    (m n h h' : ℕ) (l l₁ : Log) (o : Outcome Log)
    → h ≡ 0
    → Warns m l l₁
    → Checks n h' l₁ o
    → Checks (m + n) (h + h') l o
Checks-after m n h h' l l₁ o e w (passes e' l₂ w') =
    passes (omega (arith, e, e')) l₂ (Warns-append m n l l₁ l₂ w w')
Checks-after m n h h' l l₁ o e w (stops p) = stops (omega (arith, p))

Checks-append :
    (m n h h' : ℕ) (l : Log) (o : Outcome Log) (f : Log → Outcome Log)
    → Checks m h l o
    → ((l₁ : Log) → Checks n h' l₁ (f l₁))
    → Checks (m + n) (h + h') l (o >>= f)
Checks-append m n h h' l o f (passes e l₁ w) go = Checks-after m n h h' l l₁ (f l₁) e w (go l₁)
Checks-append m n h h' l o f (stops p) go = stops (omega (arith, p))

if_then :
    (P : Outcome Log → Type 0) (b : Bool) (x y : Outcome Log)
    → b ≡ true
    → P x
    → P (if b then x else y)
if_then P true x y e p = p
if_then P false x y e p = absurd (cc e)

if_else :
    (P : Outcome Log → Type 0) (b : Bool) (x y : Outcome Log)
    → b ≡ false
    → P y
    → P (if b then x else y)
if_else P true x y e p = absurd (cc e)
if_else P false x y e p = p

-- A plain value within the depth.
Checks-plain :
    (type_name : String) (is_default : Bool) (seen : Visibility) (name : String) (l : Log)
    → Checks (if is_default then 0 else 1) (if is_exported seen then 0 else 1) l (
        if not (is_exported seen)
        then panics
        else if is_default
        then returns l
        else returns (warn name type_name l))
Checks-plain type_name true exported name l = Checks-none l
Checks-plain type_name false exported name l =
    passes refl (warn name type_name l) (Warns-warn name type_name l)
Checks-plain type_name is_default embedded name l = stops (omega arith)
Checks-plain type_name is_default unexported name l = stops (omega arith)

mutual
  unfolding check_default1

  check_default1_lem :
      (value : Value) (seen : Visibility) (depth levels : ℕ) (name : String) (l : Log)
      → depth + levels ≡ 4
      → Checks
          (non_defaults value levels)
          (hidden value seen levels)
          l
          (check_default1 value seen depth name l)
  check_default1_lem (struct fields) seen depth zero name l e =
      if_then (Checks 0 0 l) (ltb 3 depth) _ _ (ground arith) (Checks-none l)
  check_default1_lem nil_pointer seen depth zero name l e = Checks-none l
  check_default1_lem (pointer value) seen depth zero name l e =
      if_then (Checks 0 0 l) (ltb 3 depth) _ _ (ground arith) (Checks-none l)
  check_default1_lem (plain type_name is_default) seen depth zero name l e =
      if_then (Checks 0 0 l) (ltb 3 depth) _ _ (ground arith) (Checks-none l)
  check_default1_lem other seen depth zero name l e = Checks-none l
  check_default1_lem (struct fields) seen depth (suc levels) name l e =
      if_else (Checks (non_default_fields fields levels) (hidden_fields fields seen levels) l)
        (ltb 3 depth) _ _ (ground arith) (check_fields1_lem fields seen depth levels name l e)
  check_default1_lem nil_pointer seen depth (suc levels) name l e = Checks-none l
  check_default1_lem (pointer value) seen depth (suc levels) name l e =
      if_else (Checks (non_defaults value levels) (hidden value seen levels) l) (ltb 3 depth) _ _
        (ground arith) (check_default1_lem value seen (suc depth) levels name l (omega (arith, e)))
  check_default1_lem (plain type_name is_default) seen depth (suc levels) name l e =
      if_else (Checks (if is_default then 0 else 1) (if is_exported seen then 0 else 1) l)
        (ltb 3 depth) _ _ (ground arith) (Checks-plain type_name is_default seen name l)
  check_default1_lem other seen depth (suc levels) name l e = Checks-none l

  check_fields1_lem :
      (fields : Fields) (seen : Visibility) (depth levels : ℕ) (name : String) (l : Log)
      → depth + suc levels ≡ 4
      → Checks
          (non_default_fields fields levels)
          (hidden_fields fields seen levels)
          l
          (check_fields1 fields seen depth name l)
  check_fields1_lem no_more seen depth levels name l e = Checks-none l
  check_fields1_lem (field name1 visibility value fields) seen depth levels name l e =
      Checks-append (non_defaults value levels) (non_default_fields fields levels)
        (hidden value (field_visibility seen visibility) levels) (hidden_fields fields seen levels)
        l _ (check_fields1 fields seen depth name)
        (check_default1_lem value (field_visibility seen visibility) (suc depth) levels
          (field_name name name1) l (omega (arith, e)))
        (λ mid. check_fields1_lem fields seen depth levels name mid e)

-- Decoding into a value panics if it has a plain value, within three levels of it, that is reached
-- through a field that is not exported, a pointer or a field being one level down. Otherwise it counts
-- each of the plain values within these levels that is not the default, and no other; at most one warning
-- is printed, and one is exactly if there is such a value and nothing was counted before.
pub check_default_lem :
    (value : Value) (l : Log)
    → Checks (non_defaults value 3) (hidden value exported 3) l (check_default value l)
unfolding check_default
check_default_lem value l = check_default1_lem value exported 1 3 "" l (omega arith)
