-- ===== src/Checker/Stale.antt =====
-- What lab4/checker/checker.go reports of a read when no write is under way.
use cs426_spring2022_labs.Common.{
  ◌+◌, Bool-cases, sym, ℕ, String, ◌≡◌, refl, ap, ◌∙◌, inl, inr, true, Option, none, some, [], ◌∷◌,
  ℤ, pos, ◌+ℤ◌, ◌-ℤ◌, returns, arith, In, string_key,
}
use cs426_spring2022_labs.Common.GoMap.{
  get_or-insert_self, get_or-insert_ne, GoMap, get, insert, get-insert, get_or-insert,
}
use cs426_spring2022_labs.Checker.{
  begin_write, is_exclusive, Flags, StateValue, ConsistencyChecker, Values, at, count_at,
  complete_write, new_state_value, record_write, overwrite_all,
}
use cs426_spring2022_labs.Checker.Calls.{begin_write_self, complete_write-eq-returns}
use cs426_spring2022_labs.Checker.Register.{IsKnown}

-- Each value is stored under its own text.
pub record IsKeyed (cc : ConsistencyChecker) : Type 0 where
  pub values : (key u : String) (x : StateValue) → get (at cc.values key) u ≡ some x → x.value ≡ u

abbrev Keyed : Values → Type 0
Keyed vals = (u : String) (x : StateValue) → get vals u ≡ some x → x.value ≡ u

single-Keyed : (val : StateValue) → Keyed ((val.value, val) ∷ [])
unfolding get
single-Keyed val u x e = elim (string_key.same u val.value) [
  | yes p ↦ ground arith
  | no ne ↦ ground arith
]

insert-Keyed : (vals : Values) (val : StateValue) → Keyed vals → Keyed (insert vals val.value val)
insert-Keyed vals val k u x e = elim (string_key.same u val.value) [
  | yes p ↦ ground (arith, get-insert vals val.value u val)
  | no ne ↦ ground (arith, get-insert vals val.value u val, k u x)
]

-- Storing keyed values at one key.
put-Keyed :
    (m : GoMap String Values) (key : String) (vals : Values)
    → Keyed vals
    → ((j : String) → Keyed (at m j))
    → (j : String) → Keyed (at (insert m key vals) j)
put-Keyed m key vals k rest j u x e = elim (string_key.same j key) [
  | yes p ↦ k u x (sym (ap (λ v. get v u) (rw p (get_or-insert_self m key vals []))) ∙ e)
  | no ne ↦ rest j u x (sym (ap (λ v. get v u) (get_or-insert_ne m key j vals [] ne)) ∙ e)
]

record_write-IsKeyed :
    (key : String) (val : StateValue) (init : ℤ) (cc : ConsistencyChecker)
    → IsKeyed cc
    → IsKeyed (record_write key val init cc)
unfolding record_write
record_write-IsKeyed key val init cc k =
    elim (Bool-cases (is_exclusive val.err init (count_at cc.version key) (count_at cc.rc key))) [
      | inl e ↦
          rw (e, record_write)
            (record {
              values = put-Keyed cc.values key ((val.value, val) ∷ []) (single-Keyed val) k.values;
            })
      | inr e ↦
          rw (e, record_write)
            (record {
              values =
                  put-Keyed cc.values key (insert (at cc.values key) val.value val)
                    (insert-Keyed (at cc.values key) val (k.values key)) k.values;
            })
    ]

module _ (flags : Flags) (on : flags.check_correctness ≡ true) where
  -- Completing a write keeps each value under its own text.
  pub complete_write-IsKeyed :
      (now : ℕ) (key value : String) (err : Option String) (init : ℤ) (m d : ℕ)
      (cc cc' : ConsistencyChecker)
      → complete_write flags now key value err init m d cc ≡ returns cc'
      → IsKeyed cc
      → IsKeyed cc'
  complete_write-IsKeyed now key value err init m d cc cc' h k =
      rw (complete_write-eq-returns flags on now key value err init m d cc cc' h).0
        (record_write-IsKeyed key (new_state_value flags now value err m d) init cc k)

overwrite_all_keeps :
    (key u : String) (vals : Values) (m : GoMap String Values)
    → IsKnown (at m key) u
    → IsKnown (at (overwrite_all key vals m) key) u
unfolding overwrite_all
overwrite_all_keeps key u [] m h = h
overwrite_all_keeps key u ((_, val) ∷ rest) m h =
    let new : Values = insert (at m key) val.value val in
    overwrite_all_keeps key u rest (insert m key new) (λ e.
      h (ground (arith, get_or-insert m key key new [], get-insert (at m key) val.value u val)))

pub overwrite_all_has :
    (key k : String) (x : StateValue) (vals : Values) (m : GoMap String Values)
    → In (k, x) vals
    → IsKnown (at (overwrite_all key vals m) key) x.value
unfolding overwrite_all
overwrite_all_has key k x [] m i = absurd i.0
overwrite_all_has key k x ((_, val) ∷ rest) m (inr i) = overwrite_all_has key k x rest _ i
overwrite_all_has key k x ((j, val) ∷ rest) m (inl p) =
    let new : Values = insert (at m key) val.value val in
    let q : x ≡ val = ap (λ e. e.1) p in
    overwrite_all_keeps key x.value rest (insert m key new) (λ e.
      ground
        (arith, get_or-insert m key key new [], get-insert (at m key) val.value x.value val, q))

-- The state after a write to the key that was alone and succeeded.
record Replaces (key : String) (val : StateValue) (cc cc' : ConsistencyChecker) : Type 0 where
  values : at cc'.values key ≡ (val.value, val) ∷ []
  overwritten :
      at cc'.overwritten_values key
      ≡ at (overwrite_all key (at cc.values key) cc.overwritten_values) key
  rc : count_at cc'.rc key ≡ pos 0

pub zero_plus_one : pos 0 +ℤ pos 1 ≡ pos 1
unfolding ◌+ℤ◌
zero_plus_one = refl

pub one_minus_one : pos 1 -ℤ pos 1 ≡ pos 0
unfolding ◌-ℤ◌
one_minus_one = refl

is_exclusive_alone :
    (err : Option String) (version refs : ℤ)
    → err ≡ none
    → refs ≡ pos 1
    → is_exclusive err version version refs ≡ true
unfolding is_exclusive
is_exclusive_alone none version refs e one = ground arith
is_exclusive_alone (some x) version refs e one = absurd (cc e)

record_write_alone :
    (key : String) (val : StateValue) (cc : ConsistencyChecker)
    → val.err ≡ none
    → count_at cc.rc key ≡ pos 1
    → Replaces key val cc (record_write key val (count_at cc.version key) cc)
unfolding record_write
record_write_alone key val cc no_err one =
    let e = is_exclusive_alone val.err (count_at cc.version key) (count_at cc.rc key) no_err one in
    rw (e, record_write)
      (record {
        values = get_or-insert_self cc.values key ((val.value, val) ∷ []) [];
        overwritten = refl;
        rc =
            get_or-insert_self cc.rc key (count_at cc.rc key -ℤ pos 1) (pos 0)
            ∙ ap (λ z. z -ℤ pos 1) one
            ∙ one_minus_one;
      })

-- A checker with a write to the key completed that began with none pending and succeeded.
pub record WroteAlone (flags : Flags) (key value : String) (m d : ℕ)
    (before after : ConsistencyChecker) : Type 0 where
  pub idle : count_at before.rc key ≡ pos 0
  pub now : ℕ
  pub completed :
      complete_write flags now key value none
        (begin_write flags key before).1
        m
        d
        (begin_write flags key before).0
      ≡ returns after

module _ (flags : Flags) (on : flags.check_correctness ≡ true) (key value : String) (m d : ℕ) where
  pub alone_lem :
      (before after : ConsistencyChecker)
      → WroteAlone flags key value m d before after
      → (val : StateValue) × (val.value ≡ value)
        × (val.err ≡ none)
        × (val.definitely_expired_by ≡ d + flags.ttl_check_buffer)
        × (val.maybe_expired_by ≡ m)
        × (at after.values key ≡ (value, val) ∷ [])
        × (at after.overwritten_values key
            ≡ at (overwrite_all key (at before.values key) before.overwritten_values) key)
        × (count_at after.rc key ≡ pos 0)
  unfolding begin_write
  alone_lem before after w =
      let val : StateValue = new_state_value flags w.now value none m d in
      let cc₁ = (begin_write flags key before).0 in
      let (init, rc, version, values) = begin_write_self flags on key before in
      let (e, _, _) =
        complete_write-eq-returns flags on w.now key value none (begin_write flags key before).1 m d
          cc₁ after w.completed in
      let r =
        record_write_alone key val cc₁ refl (rc ∙ ap (λ z. z +ℤ pos 1) w.idle ∙ zero_plus_one) in
      let e' = e ∙ ap (λ z. record_write key val z cc₁) (init ∙ sym version) in
      let r' : Replaces key val cc₁ after = rw e' r in
      (val, refl, refl, refl, refl, r'.values, r'.overwritten ∙ rw on refl, r'.rc)
