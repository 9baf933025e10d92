-- ===== src/Checker.antt =====
-- lab4/checker/checker.go: the correctness checker of the stress tester. Times are nanoseconds. The
-- clock is an argument of each call that reads it, and each method holds the mutex.
pub mod Calls
pub mod Register
pub mod Covered
pub mod Sound
pub mod Stale
pub mod Reports
pub mod FalseAlarm
mod Tests
use cs426_spring2022_labs.Common.{
  ℕ, suc, ◌+◌, ◌%◌, ◌^◌, String, ite, Bool, true, false, not, ◌&&◌, ◌||◌, Option, none, some, List,
  [], ◌∷◌, ◌++◌, ℤ, pos, ◌+ℤ◌, ◌-ℤ◌, int_same, Outcome, returns, panics, if◌then◌else◌, ltb,
  string_key,
}
use cs426_spring2022_labs.Common.GoMap.{GoMap, get, get_or, insert}

-- The command line flags.
pub record Flags : Type 0 where
  pub check_correctness : Bool
  pub check_ttl : Bool
  pub ttl_check_buffer : ℕ

pub record StateValue : Type 0 where
  pub value : String
  pub written_at : ℕ
  pub maybe_expired_by : ℕ
  pub definitely_expired_by : ℕ
  pub err : Option String
  pub overwritten_at : ℕ

abbrev pub Values : Type 0
Values = GoMap String StateValue

pub record ConsistencyChecker : Type 0 where
  pub checks_run : ℕ
  pub values : GoMap String Values
  pub overwritten_values : GoMap String Values
  pub version : GoMap String ℤ
  pub rc : GoMap String ℤ

abbrev pub make_consistency_checker : ConsistencyChecker
make_consistency_checker = record {
  checks_run = 0;
  values = [];
  overwritten_values = [];
  version = [];
  rc = [];
}

-- `cc.values[key]` and its like; a nil map reads as an empty one.
abbrev pub at : GoMap String Values → String → Values
at m key = get_or m key []

abbrev pub count_at : GoMap String ℤ → String → ℤ
count_at m key = get_or m key (pos 0)

unfoldable pub begin_write : Flags → String → ConsistencyChecker → ConsistencyChecker × ℤ
begin_write flags key cc = if not flags.check_correctness then (cc, pos 0) else (
  record cc { rc = insert cc.rc key (count_at cc.rc key +ℤ pos 1) },
  count_at cc.version key,
)

-- The loop of `CompleteWrite` over the values that are overwritten.
unfoldable pub overwrite_all : String → Values → GoMap String Values → GoMap String Values
overwrite_all key [] overwritten = overwritten
overwrite_all key ((_, val) ∷ rest) overwritten =
    overwrite_all key rest (insert overwritten key (insert (at overwritten key) val.value val))

-- Whether no other write to the key was under way since this one began.
unfoldable pub is_exclusive : Option String → ℤ → ℤ → ℤ → Bool
is_exclusive (some e) initial_version current_version refs = false
is_exclusive none initial_version current_version refs =
    ite (int_same initial_version current_version) (ite (int_same refs (pos 1)) true false) false

-- The write is recorded under the lock.
unfoldable pub record_write : String → StateValue → ℤ → ConsistencyChecker → ConsistencyChecker
unfolding is_exclusive overwrite_all
record_write key new_val initial_version cc =
    let vals = at cc.values key in
    let cc' =
      if is_exclusive new_val.err initial_version (count_at cc.version key) (count_at cc.rc key)
      then record cc {
        overwritten_values = overwrite_all key vals cc.overwritten_values;
        values = insert cc.values key ((new_val.value, new_val) ∷ []);
      }
      else record cc { values = insert cc.values key (insert vals new_val.value new_val) } in
    record cc' {
      rc = insert cc'.rc key (count_at cc'.rc key -ℤ pos 1);
      version = insert cc'.version key (count_at cc'.version key +ℤ pos 1);
    }

abbrev pub new_state_value : Flags → ℕ → String → Option String → ℕ → ℕ → StateValue
new_state_value flags now value err maybe_expired_by definitely_expired_by = record {
  value = value;
  written_at = now;
  maybe_expired_by = maybe_expired_by;
  definitely_expired_by = definitely_expired_by + flags.ttl_check_buffer;
  err = err;
  overwritten_at = 0;
}

unfoldable pub complete_write :
    Flags
    → (now : ℕ) → (key value : String) → Option String
    → (initial_version : ℤ) → (maybe_expired_by definitely_expired_by : ℕ) → ConsistencyChecker
    → Outcome ConsistencyChecker
unfolding record_write
complete_write flags now key value err initial_version maybe_expired_by definitely_expired_by cc =
    if not flags.check_correctness then returns cc else elim (get (at cc.values key) value) [
      | some _ ↦ panics
      | none ↦ elim (get (at cc.overwritten_values key) value) [
        | some _ ↦ panics
        | none ↦ returns (
            record_write key
              (new_state_value flags now value err maybe_expired_by definitely_expired_by)
              initial_version cc)
      ]
    ]

unfoldable pub begin_read : Flags → String → ConsistencyChecker → ℤ × Bool
begin_read flags key cc =
    if not flags.check_correctness
    then (pos 0, false)
    else (count_at cc.version key, ite (int_same (count_at cc.rc key) (pos 0)) false true)

pub data ReadError : Type 0 where
  -- nothing was found, but these values have not expired
  unexpired : List StateValue → ReadError
  overwritten never_written expired : ReadError

-- The loop of `CheckReadCorrect` over the values of a key that was not found.
scan_expired : (now : ℕ) → Values → Bool → List StateValue → Bool × List StateValue
scan_expired now [] some_value_expired not_expired = (some_value_expired, not_expired)
scan_expired now ((_, val) ∷ rest) some_value_expired not_expired =
    let past = ltb val.maybe_expired_by now in
    scan_expired now rest (some_value_expired || past)
      (if past then not_expired else not_expired ++ val ∷ [])

abbrev is_empty : Values → Bool
is_empty [] = true
is_empty (_ ∷ _) = false

unfoldable pub check_not_found : (now : ℕ) → Values → Option ReadError
unfolding scan_expired
check_not_found now vals =
    let (some_value_expired, not_expired) = scan_expired now vals (is_empty vals) [] in
    if not some_value_expired then some (unexpired not_expired) else none

abbrev is_nil : Option String → Bool
is_nil none = true
is_nil (some _) = false

unfoldable pub check_found : Flags → (start_time : ℕ) → String → Values → Values → Option ReadError
check_found flags start_time value vals old = elim (get vals value) [
  | none ↦ elim (get old value) [ some _ ↦ some overwritten | none ↦ some never_written ]
  | some val ↦
      if flags.check_ttl && is_nil val.err && ltb val.definitely_expired_by start_time
      then some expired
      else none
]

unfoldable pub check_read_correct :
    Flags
    → (now : ℕ) → (key value : String) → (was_found : Bool) → (start_time : ℕ)
    → (initial_version : ℤ) → (writes_pending : Bool) → ConsistencyChecker
    → ConsistencyChecker × Option ReadError
unfolding check_not_found check_found
check_read_correct flags now key value was_found start_time initial_version writes_pending cc =
    if not flags.check_correctness
    then (cc, none)
    else if ite (int_same (count_at cc.version key) initial_version) false true
        || writes_pending
        || ite (int_same (count_at cc.rc key) (pos 0)) false true
    then (cc, none)
    else (
      record cc { checks_run = suc cc.checks_run % 2 ^ 64 },
      if was_found
          then check_found flags start_time value (at cc.values key) (at cc.overwritten_values key)
          else check_not_found now (at cc.values key),
    )
