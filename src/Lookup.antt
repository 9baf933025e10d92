-- ===== src/Lookup.antt =====
-- The loop that the user service (lab1/user_service/server_lib/server_lib.go) and the video service
-- (lab1/video_service/server_lib/server_lib.go) look a batch of ids up with.
use cs426_spring2022_labs.Common.{
  ℕ, ◌≡◌, ◌≢◌, refl, ap, ◌∙◌, inl, inr, none, some, List, [], ◌∷◌, ◌++◌, map, Bool, true, false,
  nat_key, arith, Option-cases, All,
}
use cs426_spring2022_labs.Common.GoMap.{GoMap, get}
use cs426_spring2022_labs.Status.{Status, Response, ok, error, not_found}
use mathlib.Core.List.{append-nil, append_assoc}

abbrev pub is_empty : List ℕ → Bool
is_empty [] = true
is_empty (_ ∷ _) = false

-- The loop over a request's ids, which stops at the first id that is not in the database.
unfoldable pub find_all : {V : Type 0} → GoMap ℕ V → List ℕ → List V → Response (List V)
find_all db [] found = ok found
find_all db (id ∷ rest) found = elim (get db id) [
  | none ↦ error (not_found id)
  | some info ↦ find_all db rest (found ++ info ∷ [])
]

module _ {V : Type 0} (db : GoMap ℕ V) where
  pub find_all_ok :
      (ids : List ℕ) (acc us : List V)
      → find_all db ids acc ≡ ok us
      → (found : List V) × (us ≡ acc ++ found) × (map (get db) ids ≡ map some found)
  unfolding find_all
  find_all_ok [] acc us h = ([], cc (h, append-nil acc), refl)
  find_all_ok (id ∷ ids) acc us h = elim (Option-cases (get db id)) [
    | inl e ↦ absurd (cc (rw (e, find_all) at h))
    | inr (info, e) ↦
        let (found, same, looked) = find_all_ok ids (acc ++ info ∷ []) us (rw (e, find_all) at h) in
        (info ∷ found, same ∙ append_assoc acc (info ∷ []) found, cc (e, looked))
  ]

  pub find_all_found :
      (ids : List ℕ) (acc found : List V)
      → map (get db) ids ≡ map some found
      → find_all db ids acc ≡ ok (acc ++ found)
  unfolding find_all
  find_all_found [] acc [] h = cc (append-nil acc)
  find_all_found [] acc (x ∷ found) h = absurd (cc h)
  find_all_found (id ∷ ids) acc [] h = absurd (cc h)
  find_all_found (id ∷ ids) acc (x ∷ found) h =
      let e : get db id ≡ some x = cc h in
      let rest : map (get db) ids ≡ map some found = cc h in
      rw (e, find_all)
        (find_all_found ids (acc ++ x ∷ []) found rest ∙ ap ok (append_assoc acc (x ∷ []) found))

  -- The first id that is missing, with those before it, which are there.
  pub record FirstMissing (id : ℕ) (ids : List ℕ) : Type 0 where
    pub before : List ℕ
    pub after : List ℕ
    pub split : ids ≡ before ++ id ∷ after
    pub present : All (λ i. get db i ≢ none) before
    pub missing : get db id ≡ none

  pub find_all_error :
      (ids : List ℕ) (acc : List V) (s : Status)
      → find_all db ids acc ≡ error s
      → (id : ℕ) × (s ≡ not_found id) × FirstMissing id ids
  unfolding find_all
  find_all_error [] acc s h = absurd (cc h)
  find_all_error (id ∷ ids) acc s h = elim (Option-cases (get db id)) [
    | inl e ↦ (
      id,
      cc (rw (e, find_all) at h),
      record { before = []; after = ids; split = refl; present = tt; missing = e },
    )
    | inr (info, e) ↦
        let (j, same, m) = find_all_error ids (acc ++ info ∷ []) s (rw (e, find_all) at h) in
        (
          j,
          same,
          record {
            before = id ∷ m.before;
            after = m.after;
            split = ap (◌∷◌ id) m.split;
            present = ((λ n. cc (n, e)), m.present);
            missing = m.missing;
          },
        )
  ]

pub not_found_injective : (a b : ℕ) → not_found a ≡ not_found b → a ≡ b
not_found_injective a b e = ground arith
