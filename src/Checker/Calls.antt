-- ===== src/Checker/Calls.antt =====
-- What one call of lab4/checker/checker.go changes, key by key.
use cs426_spring2022_labs.Common.{
  ℕ, String, ◌≡◌, ◌≢◌, refl, ◌∙◌, ◌⊎◌, inl, inr, Bool, true, Option, none, some, [], ◌∷◌, ℤ, pos,
  ◌+ℤ◌, ◌-ℤ◌, returns, string_key, arith, Bool-cases,
}
use cs426_spring2022_labs.Common.GoMap.{
  get_or-insert_self, get_or-insert_ne, GoMap, get, insert, get_or-insert,
}
use cs426_spring2022_labs.Checker.{
  Flags, StateValue, Values, ConsistencyChecker, at, count_at, begin_write, overwrite_all,
  is_exclusive, record_write, new_state_value, complete_write, check_read_correct,
}

-- The two checkers agree on all that concerns a key.
pub record SameAt (key : String) (cc cc' : ConsistencyChecker) : Type 0 where
  pub values : at cc'.values key ≡ at cc.values key
  pub overwritten : at cc'.overwritten_values key ≡ at cc.overwritten_values key
  pub version : count_at cc'.version key ≡ count_at cc.version key
  pub rc : count_at cc'.rc key ≡ count_at cc.rc key

-- What a write does to its own key.
pub record Writes (key : String) (val : StateValue) (init : ℤ) (cc cc' : ConsistencyChecker)
    : Type 0 where
  pub version : count_at cc'.version key ≡ count_at cc.version key +ℤ pos 1
  pub rc : count_at cc'.rc key ≡ count_at cc.rc key -ℤ pos 1
  pub values :
      ((val.err ≡ none)
        × (init ≡ count_at cc.version key)
        × (count_at cc.rc key ≡ pos 1)
        × (at cc'.values key ≡ (val.value, val) ∷ []))
      ⊎ (at cc'.values key ≡ insert (at cc.values key) val.value val)

module _ (flags : Flags) (on : flags.check_correctness ≡ true) where
  pub begin_write_self :
      (key : String) (cc : ConsistencyChecker)
      → ((begin_write flags key cc).1 ≡ count_at cc.version key)
        × (count_at (begin_write flags key cc).0.rc key ≡ count_at cc.rc key +ℤ pos 1)
        × (count_at (begin_write flags key cc).0.version key ≡ count_at cc.version key)
        × (at (begin_write flags key cc).0.values key ≡ at cc.values key)
  unfolding begin_write
  begin_write_self key cc = rw on (
    refl,
    ground (arith, get_or-insert cc.rc key key (count_at cc.rc key +ℤ pos 1) (pos 0)),
    refl,
    refl,
  )

  pub begin_write-SameAt :
      (key j : String) (cc : ConsistencyChecker)
      → j ≢ key
      → SameAt j cc (begin_write flags key cc).0
  unfolding begin_write
  begin_write-SameAt key j cc ne = rw on (record {
    values = refl;
    overwritten = refl;
    version = refl;
    rc = ground (arith, get_or-insert cc.rc key j (count_at cc.rc key +ℤ pos 1) (pos 0));
  })

  -- A completed write that does not panic is recorded, and its value is new for its key.
  pub complete_write-eq-returns :
      (now : ℕ) (key value : String) (err : Option String) (init : ℤ) (m d : ℕ)
      (cc cc' : ConsistencyChecker)
      → complete_write flags now key value err init m d cc ≡ returns cc'
      → (cc' ≡ record_write key (new_state_value flags now value err m d) init cc)
        × (get (at cc.values key) value ≡ none)
        × (get (at cc.overwritten_values key) value ≡ none)
  unfolding complete_write
  complete_write-eq-returns now key value err init m d cc cc' h = ground arith

  pub check_read_correct-SameAt :
      (now : ℕ) (key value : String) (found : Bool) (start : ℕ) (init : ℤ) (pending : Bool)
      (j : String) (cc : ConsistencyChecker)
      → SameAt j cc (check_read_correct flags now key value found start init pending cc).0
  unfolding check_read_correct
  check_read_correct-SameAt now key value found start init pending j cc = ground arith

is_exclusive-true :
    (err : Option String) (init version refs : ℤ)
    → is_exclusive err init version refs ≡ true
    → (err ≡ none) × (init ≡ version) × (refs ≡ pos 1)
unfolding is_exclusive
is_exclusive-true none init version refs h = ground arith
is_exclusive-true (some e) init version refs h = cc

pub record_write-Writes :
    (key : String) (val : StateValue) (init : ℤ) (cc : ConsistencyChecker)
    → Writes key val init cc (record_write key val init cc)
unfolding record_write
record_write-Writes key val init cc =
    let refs : ℤ = count_at cc.rc key in
    let version : ℤ = count_at cc.version key in
    elim (Bool-cases (is_exclusive val.err init version refs)) [
      | inl e ↦
          let (no_err, same, one) = is_exclusive-true val.err init version refs e in
          rw (e, record_write)
            (record {
              version = get_or-insert_self cc.version key (version +ℤ pos 1) (pos 0);
              rc = get_or-insert_self cc.rc key (refs -ℤ pos 1) (pos 0);
              values =
                  inl (
                    no_err,
                    same,
                    one,
                    get_or-insert_self cc.values key ((val.value, val) ∷ []) [],
                  );
            })
      | inr e ↦
          rw (e, record_write)
            (record {
              version = get_or-insert_self cc.version key (version +ℤ pos 1) (pos 0);
              rc = get_or-insert_self cc.rc key (refs -ℤ pos 1) (pos 0);
              values =
                  inr
                    (get_or-insert_self cc.values key (insert (at cc.values key) val.value val) []);
            })
    ]

overwrite_all_ne :
    (key j : String) (vals : Values) (m : GoMap String Values)
    → j ≢ key
    → at (overwrite_all key vals m) j ≡ at m j
unfolding overwrite_all
overwrite_all_ne key j [] m ne = refl
overwrite_all_ne key j ((_, val) ∷ rest) m ne =
    overwrite_all_ne key j rest (insert m key (insert (at m key) val.value val)) ne
    ∙ get_or-insert_ne m key j (insert (at m key) val.value val) [] ne

pub record_write-SameAt :
    (key j : String) (val : StateValue) (init : ℤ) (cc : ConsistencyChecker)
    → j ≢ key
    → SameAt j cc (record_write key val init cc)
unfolding record_write
record_write-SameAt key j val init cc ne =
    elim (Bool-cases (is_exclusive val.err init (count_at cc.version key) (count_at cc.rc key))) [
      | inl e ↦
          rw (e, record_write)
            (record {
              values = get_or-insert_ne cc.values key j ((val.value, val) ∷ []) [] ne;
              overwritten = overwrite_all_ne key j (at cc.values key) cc.overwritten_values ne;
              version =
                  get_or-insert_ne cc.version key j (count_at cc.version key +ℤ pos 1) (pos 0) ne;
              rc = get_or-insert_ne cc.rc key j (count_at cc.rc key -ℤ pos 1) (pos 0) ne;
            })
      | inr e ↦
          rw (e, record_write)
            (record {
              values =
                  get_or-insert_ne cc.values key j (insert (at cc.values key) val.value val) [] ne;
              overwritten = refl;
              version =
                  get_or-insert_ne cc.version key j (count_at cc.version key +ℤ pos 1) (pos 0) ne;
              rc = get_or-insert_ne cc.rc key j (count_at cc.rc key -ℤ pos 1) (pos 0) ne;
            })
    ]
