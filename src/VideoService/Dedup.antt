-- ===== src/VideoService/Dedup.antt =====
-- `deduplicateIds` of lab1/video_service/server_lib/server_lib.go.
use cs426_spring2022_labs.Common.{
  ℕ, ◌≤◌, ◌+◌, ◌≡◌, ◌↔◌, ◌⊎◌, refl, ap, sym, ◌∙◌, inl, inr, some, List, [], ◌∷◌, ◌++◌, length,
  nat_key, arith, Option-cases, In, Distinct, Distinct-snoc, In-append, In-append_left,
  In-append_right, length-append, suc,
}
use cs426_spring2022_labs.Common.GoMap.{GoMap, get, insert, get-insert_self, get-insert_ne}
use cs426_spring2022_labs.VideoService.{dedup_from, deduplicate_ids}
use mathlib.Core.List.{append-nil, append_assoc}

-- The set of the loop holds exactly the ids gathered.
abbrev IsSetOf : GoMap ℕ (Unit {0}) → List ℕ → Type 0
IsSetOf set ids = (i : ℕ) → (In i ids → get set i ≡ some tt) × (get set i ≡ some tt → In i ids)

IsSetOf-insert :
    (set : GoMap ℕ (Unit {0})) (ids : List ℕ) (id : ℕ)
    → IsSetOf set ids
    → IsSetOf (insert set id tt) (ids ++ id ∷ [])
IsSetOf-insert set ids id h i = (
  λ m. elim (nat_key.same i id) [
    | yes e ↦ rw e (get-insert_self set id tt)
    | no ne ↦ get-insert_ne set id i tt ne ∙ elim (In-append i ids (id ∷ []) m) [
      | inl l ↦ (h i).0 l
      | inr (inl e) ↦ absurd (ne e)
      | inr (inr b) ↦ absurd b.0
    ]
  ],
  λ g. elim (nat_key.same i id) [
    | yes e ↦ In-append_right i ids (id ∷ []) (inl e)
    | no ne ↦ In-append_left i ids (id ∷ []) ((h i).1 (sym (get-insert_ne set id i tt ne) ∙ g))
  ],
)

dedup_from-Distinct :
    (ids : List ℕ) (set : GoMap ℕ (Unit {0})) (acc : List ℕ)
    → IsSetOf set acc
    → Distinct acc
    → Distinct (dedup_from ids set acc)
unfolding dedup_from
dedup_from-Distinct [] set acc h d = d
dedup_from-Distinct (id ∷ ids) set acc h d = elim (Option-cases (get set id)) [
  | inl e ↦
      rw (e, dedup_from)
        (dedup_from-Distinct ids (insert set id tt) (acc ++ id ∷ []) (IsSetOf-insert set acc id h)
          (Distinct-snoc id acc d (λ m. absurd (cc (e, (h id).0 m)))))
  | inr (u, e) ↦ rw (e, dedup_from) (dedup_from-Distinct ids set acc h d)
]

-- Nothing is lost or made up.
dedup_from_members :
    (ids : List ℕ) (set : GoMap ℕ (Unit {0})) (acc : List ℕ) (i : ℕ)
    → IsSetOf set acc
    → In i (dedup_from ids set acc) ↔ (In i acc ⊎ In i ids)
unfolding dedup_from
dedup_from_members [] set acc i h = (λ m. inl m, λ s. elim s [ inl m ↦ m | inr b ↦ absurd b.0 ])
dedup_from_members (id ∷ ids) set acc i h = elim (Option-cases (get set id)) [
  | inl e ↦
      let r =
        dedup_from_members ids (insert set id tt) (acc ++ id ∷ []) i
          (IsSetOf-insert set acc id h) in
      rw (e, dedup_from)
        (
          λ m. elim (r.0 m) [
            | inl a ↦ elim (In-append i acc (id ∷ []) a) [
              | inl l ↦ inl l
              | inr (inl q) ↦ inr (inl q)
              | inr (inr b) ↦ absurd b.0
            ]
            | inr l ↦ inr (inr l)
          ],
          λ s. r.1 (elim s [
            | inl l ↦ inl (In-append_left i acc (id ∷ []) l)
            | inr (inl q) ↦ inl (In-append_right i acc (id ∷ []) (inl q))
            | inr (inr l) ↦ inr l
          ]),
        )
  | inr (u, e) ↦
      let r = dedup_from_members ids set acc i h in
      rw (e, dedup_from)
        (
          λ m. elim (r.0 m) [ inl a ↦ inl a | inr l ↦ inr (inr l) ],
          λ s. elim s [
            | inl l ↦ r.1 (inl l)
            | inr (inl q) ↦ r.1 (inl (rw q ((h id).1 (e ∙ refl))))
            | inr (inr l) ↦ r.1 (inr l)
          ],
        )
]

length-dedup_from :
    (ids : List ℕ) (set : GoMap ℕ (Unit {0})) (acc : List ℕ)
    → length (dedup_from ids set acc) ≤ length acc + length ids
unfolding dedup_from
length-dedup_from [] set acc = omega arith
length-dedup_from (id ∷ ids) set acc = elim (Option-cases (get set id)) [
  | inl e ↦
      rw (e, dedup_from)
        (omega (
          arith,
          length-append acc (id ∷ []),
          length-dedup_from ids (insert set id tt) (acc ++ id ∷ []),
        ))
  | inr (u, e) ↦ rw (e, dedup_from) (omega (arith, length-dedup_from ids set acc))
]

-- If nothing was dropped, the list is the one that came in.
dedup_from_full :
    (ids : List ℕ) (set : GoMap ℕ (Unit {0})) (acc : List ℕ)
    → length (dedup_from ids set acc) ≡ length acc + length ids
    → dedup_from ids set acc ≡ acc ++ ids
unfolding dedup_from
dedup_from_full [] set acc q = sym (append-nil acc)
dedup_from_full (id ∷ ids) set acc q = elim (Option-cases (get set id)) [
  | inl e ↦
      let shorter : length (dedup_from ids (insert set id tt) (acc ++ id ∷ []))
          ≡ length acc + suc (length ids) =
        rw (e, dedup_from) at q in
      rw (e, dedup_from)
        (dedup_from_full ids (insert set id tt) (acc ++ id ∷ [])
            (omega (arith, shorter, length-append acc (id ∷ [])))
          ∙ append_assoc acc (id ∷ []) ids)
  | inr (u, e) ↦
      let same : length (dedup_from ids set acc) ≡ length acc + suc (length ids) =
        rw (e, dedup_from) at q in
      absurd (omega (arith, same, length-dedup_from ids set acc))
]

dedup_from_kept :
    (ids : List ℕ) (set : GoMap ℕ (Unit {0})) (acc : List ℕ)
    → IsSetOf set acc
    → Distinct ids
    → ((i : ℕ) → In i ids → ¬ In i acc)
    → dedup_from ids set acc ≡ acc ++ ids
unfolding dedup_from
dedup_from_kept [] set acc h d fresh = sym (append-nil acc)
dedup_from_kept (id ∷ ids) set acc h d fresh = elim (Option-cases (get set id)) [
  | inl e ↦
      rw (e, dedup_from)
        (dedup_from_kept ids (insert set id tt) (acc ++ id ∷ []) (IsSetOf-insert set acc id h) d.1
            (λ i m a. elim (In-append i acc (id ∷ []) a) [
              | inl l ↦ fresh i (inr m) l
              | inr (inl q) ↦ d.0 (rw (sym q) m)
              | inr (inr b) ↦ b.0
            ])
          ∙ append_assoc acc (id ∷ []) ids)
  | inr (u, e) ↦ absurd (fresh id (inl refl) ((h id).1 (e ∙ refl)))
]

empty_set : IsSetOf [] []
unfolding get
empty_set i = (λ m. absurd m.0, λ g. absurd (cc g))

-- Deduplication keeps each id of the list once: no id stands twice in the result, and the same ids
-- stand in it.
pub deduplicate_ids_lem :
    (ids : List ℕ)
    → Distinct (deduplicate_ids ids) × ((i : ℕ) → In i (deduplicate_ids ids) ↔ In i ids)
unfolding deduplicate_ids
deduplicate_ids_lem ids = (
  dedup_from-Distinct ids [] [] empty_set tt,
  λ i.
      let r = dedup_from_members ids [] [] i empty_set in
      (λ m. elim (r.0 m) [ inl b ↦ absurd b.0 | inr l ↦ l ], λ l. r.1 (inr l)),
)

-- The test for duplicates by the length of the deduplicated list is right.
pub deduplicate_ids-length :
    (ids : List ℕ) → (length (deduplicate_ids ids) ≡ length ids) ↔ Distinct ids
unfolding deduplicate_ids
deduplicate_ids-length ids = (
  λ q.
      rw (dedup_from_full ids [] [] (omega (arith, q))) at
        (dedup_from-Distinct ids [] [] empty_set tt),
  λ d. ap length (dedup_from_kept ids [] [] empty_set d (λ i m. λ b. b.0)),
)
