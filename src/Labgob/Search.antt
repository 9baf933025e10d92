-- ===== src/Labgob/Search.antt =====
-- The search of lab2/labgob/labgob.go for lower-case fields: that it ends, what it checks and counts.
use cs426_spring2022_labs.Common.{
  ◌⊎◌, ◌↔◌, length, true, ◌+◌, ◌≤◌, ℕ, zero, suc, ◌<◌, ◌≡◌, refl, ap, ◌∙◌, inl, inr, Option, some,
  List, [], ◌∷◌, nat_key, Bool-cases, All, In, Distinct, arith,
}
use cs426_spring2022_labs.Labgob.{
  Field, TypeInfo, struct, holds, map_of, basic, Types, State, is_checked, mark, report, ◌>>=◌,
  check_fields, check_parts, check_type,
}
use cs426_spring2022_labs.Labgob.Marks.{
  here, through, counted, Reaches, lower_fields, lower, field_types, parts, unchecked, unchecked_le,
  unchecked-report, unchecked-mark,
}
use cs426_spring2022_labs.Labgob.Visits.{
  Visits, Visits-nil, Visits-append, Visits-report, Visits-mark, Visits-again,
}

-- The parts of the checked types are checked.
abbrev pub IsSettled : Types → State → Type 0
IsSettled types s =
    (u v : ℕ) → is_checked s u ≡ true → In v (parts (types u)) → is_checked s v ≡ true

module _ (types : Types) (universe : List ℕ) where
  -- Any state a `check` ends in, and what it did.
  abbrev Ends : List ℕ → ℕ → State → Option State → Type 0
  Ends roots extra s result =
      (s' : State) × (result ≡ some s') × Visits types universe roots extra s s'

  -- The recursive call ends on every type of the universe while fewer than `bound` are unchecked.
  abbrev CallEnds : (ℕ → State → Option State) → ℕ → Type 0
  CallEnds check bound =
      (t : ℕ) (s : State)
      → In t universe
      → unchecked universe s < bound
      → Ends (t ∷ []) 0 s (check t s)

  check_fields_lem :
      (check : ℕ → State → Option State) (bound : ℕ) (fields : List Field) (s : State)
      → CallEnds check bound
      → All (λ t. In t universe) (field_types fields)
      → unchecked universe s < bound
      → Ends (field_types fields) (lower_fields fields) s (check_fields check fields s)
  unfolding check_fields
  check_fields_lem check bound [] s call there low = (s, refl, Visits-nil types universe s)
  check_fields_lem check bound (f ∷ fields) s call there low =
      let start : unchecked universe (report f s) < bound =
        omega (arith, low, unchecked-report universe f s) in
      let (s₁, q, a) = call f.type_ (report f s) there.0 start in
      let (s₂, q', b) =
        check_fields_lem check bound fields s₁ call there.1
          (omega (arith, start, unchecked_le universe (report f s) s₁ a.keeps)) in
      (
        s₂,
        ap (λ o. o >>= check_fields check fields) q ∙ q',
        Visits-report types universe (field_types (f ∷ fields)) (lower_fields fields) f s s₂ (
            Visits-append types universe (f.type_ ∷ []) (field_types fields) 0 (lower_fields fields)
              (lower_fields fields) (report f s) s₁ s₂ (omega arith) a b),
      )

  check_parts_lem :
      (check : ℕ → State → Option State) (bound : ℕ) (info : TypeInfo) (s : State)
      → CallEnds check bound
      → All (λ t. In t universe) (parts info)
      → unchecked universe s < bound
      → Ends (parts info) (lower info) s (check_parts check info s)
  unfolding check_parts
  check_parts_lem check bound (struct fields) s call there low =
      check_fields_lem check bound fields s call there low
  check_parts_lem check bound (holds elem) s call there low = call elem s there.0 low
  check_parts_lem check bound (map_of elem key) s call there low =
      let (s₁, q, a) = call elem s there.0 low in
      let (s₂, q', b) =
        call key s₁ there.1.0 (omega (arith, low, unchecked_le universe s s₁ a.keeps)) in
      (
        s₂,
        ap (λ o. o >>= check key) q ∙ q',
        Visits-append types universe (elem ∷ []) (key ∷ []) 0 0 0 s s₁ s₂ (omega arith) a b,
      )
  check_parts_lem check bound basic s call there low = (s, refl, Visits-nil types universe s)

  -- The universe holds the parts of its types, each type once.
  pub record IsClosed : Type 0 where
    pub distinct : Distinct universe
    pub parts_there : (t : ℕ) → In t universe → All (λ u. In u universe) (parts (types t))

  check_type_ends : IsClosed → (fuel : ℕ) → CallEnds (check_type types fuel) fuel
  unfolding check_type
  check_type_ends c zero t s i low = absurd (omega (arith, low))
  check_type_ends c (suc fuel) t s i low = elim (Bool-cases (is_checked s t)) [
    | inl on ↦ (s, rw (on, check_type) refl, Visits-again types universe t s on)
    | inr off ↦
        let (s', q, a) =
          check_parts_lem (check_type types fuel) fuel (types t) (mark s t) (check_type_ends c fuel)
            (c.parts_there t i) (omega (arith, low, unchecked-mark universe s t i off)) in
        (s', rw (off, check_type) q, Visits-mark types universe t s s' c.distinct i off a)
  ]

  settled_reach :
      (s : State) (t u : ℕ)
      → IsSettled types s
      → is_checked s t ≡ true
      → Reaches types t u
      → is_checked s u ≡ true
  settled_reach s t u h on here = on
  settled_reach s t v h on (through {u} r i) = h u v (settled_reach s t u h on r) i

  unchecked-length : (ts : List ℕ) (s : State) → unchecked ts s ≤ length ts
  unfolding unchecked
  unchecked-length [] s = omega arith
  unchecked-length (t ∷ ts) s = ground (arith, unchecked-length ts s)

  -- `checkType` ends, also on types that contain themselves: fuel for one round more than there are
  -- types is enough. From a state in which the parts of the checked types are checked, it checks exactly
  -- the types that can be reached, besides those that were checked, and ends in such a state again; and
  -- the count of errors grows by the lower-case fields of the types newly checked, each counted once.
  pub check_type_lem :
      (fuel t : ℕ) (s : State)
      → IsClosed
      → In t universe
      → length universe < fuel
      → IsSettled types s
      → (s' : State) × (check_type types fuel t s ≡ some s')
        × ((u : ℕ) → (is_checked s' u ≡ true) ↔ ((is_checked s u ≡ true) ⊎ Reaches types t u))
        × IsSettled types s'
        × (s'.error_count + counted types universe s ≡ s.error_count + counted types universe s')
  check_type_lem fuel t s c i enough settled =
      let (s', q, a) =
        check_type_ends c fuel t s i (omega (arith, enough, unchecked-length universe s)) in
      let settled' : (u v : ℕ)
          → is_checked s' u ≡ true
          → In v (parts (types u))
          → is_checked s' v ≡ true =
        λ u v h j. elim (Bool-cases (is_checked s u)) [
          | inl on ↦ a.keeps v (settled u v on j)
          | inr off ↦ a.closed u v h off j
        ] in
      (
        s',
        q,
        (λ u. (
          λ h. elim (a.only u h) [
            | inl old ↦ inl old
            | inr (w, inl e, r) ↦ inr (inr_reach t w u e r)
            | inr (w, inr b, r) ↦ absurd b.0
          ],
          λ h. elim h [
            | inl old ↦ a.keeps u old
            | inr r ↦ settled_reach s' t u settled' a.arrived.0 r
          ],
        )),
        settled',
        omega (arith, a.errors),
      )
    where
      inr_reach : (t w u : ℕ) → w ≡ t → Reaches types w u → Reaches types t u
      inr_reach t w u e r = rw e at r
