-- ===== src/ShardMap/Count.antt =====
-- The count test of `IsValid` in lab4/kv/shardmap.go, against the tests on the shard numbers.
use cs426_spring2022_labs.Common.{
  ◌≢◌, sym, ℕ, zero, suc, ◌≤◌, String, ◌≡◌, inl, inr, ite, if_pos, if_neg, List, [], ◌∷◌, length,
  All, In, Distinct, ℤ, pos, ◌≤ℤ◌, arith, Bool-cases, int_key, length-map,
}
use cs426_spring2022_labs.Common.GoMap.{GoMap, keys, Unique}
use cs426_spring2022_labs.ShardMap.{NodeInfo, ShardMapState, check_shards, is_valid}
use cs426_spring2022_labs.ShardMap.Valid.{IsAssigned, check_shards_sound}

without : ℤ → List ℤ → List ℤ
without z [] = []
without z (x ∷ xs) = ite (int_key.same x z) xs (x ∷ without z xs)

length-without : (z : ℤ) (xs : List ℤ) → length xs ≤ suc (length (without z xs))
unfolding without
length-without z [] = omega arith
length-without z (x ∷ xs) = ground (arith, length-without z xs)

In-without : (y z : ℤ) (xs : List ℤ) → In y (without z xs) → In y xs
unfolding without
In-without y z [] h = h
In-without y z (x ∷ xs) h = elim (int_key.same x z) [
  | yes e ↦ inr (rw (if_pos _ e) at h)
  | no ne ↦ elim (let h' : In y (x ∷ without z xs) = rw (if_neg _ ne) at h in h') [
    | inl e ↦ inl e
    | inr i ↦ inr (In-without y z xs i)
  ]
]

without-Distinct : (z : ℤ) (xs : List ℤ) → Distinct xs → Distinct (without z xs)
unfolding without
without-Distinct z [] d = tt
without-Distinct z (x ∷ xs) d = ground (arith, without-Distinct z xs d.1, In-without x z xs, d.0)

abbrev Below : ℕ → ℤ → Type 0
Below n z = (pos 1 ≤ℤ z) × (z ≤ℤ pos n)

Below-shrinks : (n : ℕ) (z : ℤ) → z ≢ pos (suc n) → Below (suc n) z → Below n z
Below-shrinks n z ne b = ground arith

All-Below_ne :
    (n : ℕ) (xs : List ℤ) → ¬ In (pos (suc n)) xs → All (Below (suc n)) xs → All (Below n) xs
All-Below_ne n [] h a = tt
All-Below_ne n (x ∷ xs) h (b, a) =
    (Below-shrinks n x (λ e. h (inl (sym e))) b, All-Below_ne n xs (λ i. h (inr i)) a)

All-Below-without :
    (n : ℕ) (xs : List ℤ)
    → Distinct xs
    → All (Below (suc n)) xs
    → All (Below n) (without (pos (suc n)) xs)
unfolding without
All-Below-without n [] d a = tt
All-Below-without n (x ∷ xs) d (b, a) = elim (int_key.same x (pos (suc n))) [
  | yes e ↦ rw (if_pos _ e) (All-Below_ne n xs (rw e at d.0) a)
  | no ne ↦ rw (if_neg _ ne) (Below-shrinks n x ne b, All-Below-without n xs d.1 a)
]

-- Distinct shard numbers from 1 to n are at most n.
pigeonhole : (n : ℕ) (xs : List ℤ) → Distinct xs → All (Below n) xs → length xs ≤ n
pigeonhole n [] d a = omega arith
pigeonhole zero (x ∷ xs) d a = absurd (omega arith)
pigeonhole (suc n) (x ∷ xs) d a = omega (
  arith,
  length-without (pos (suc n)) (x ∷ xs),
  pigeonhole n (without (pos (suc n)) (x ∷ xs)) (without-Distinct (pos (suc n)) (x ∷ xs) d)
      (All-Below-without n (x ∷ xs) d a),
)

keys_in_range :
    (nodes : GoMap String NodeInfo) (n : ℕ) (m : GoMap ℤ (List String))
    → All (IsAssigned nodes (pos n)) m
    → All (Below n) (keys m)
keys_in_range nodes n [] a = tt
keys_in_range nodes n (e ∷ m) (a, r) = ((a.from_one, a.to_num_shards), keys_in_range nodes n m r)

-- The count test is implied by the range tests, since the keys of a map are distinct: with a number
-- of shards that is not negative, `IsValid` answers what its loop over the shards answers.
pub is_valid-eq-check_shards :
    (s : ShardMapState) (n : ℕ)
    → s.num_shards ≡ pos n
    → Unique s.shards_to_nodes
    → is_valid s ≡ check_shards s.nodes s.num_shards s.shards_to_nodes
unfolding is_valid
is_valid-eq-check_shards s n e u =
    elim (Bool-cases (check_shards s.nodes s.num_shards s.shards_to_nodes)) [
      | inr f ↦ ground arith
      | inl t ↦
          let a : All (IsAssigned s.nodes (pos n)) s.shards_to_nodes =
            rw e at (check_shards_sound s.nodes s.num_shards s.shards_to_nodes t) in
          let fits : length (keys s.shards_to_nodes) ≤ n =
            pigeonhole n (keys s.shards_to_nodes) u (keys_in_range s.nodes n s.shards_to_nodes a) in
          ground (arith, length-map s.shards_to_nodes (λ e. e.0))
    ]
