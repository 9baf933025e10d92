-- ===== src/Stress/Keys.antt =====
-- The random keys of lab4/cmd/stress/tester.go.
use Prim.Native.String.{◌++◌ as concat}
use cs426_spring2022_labs.Common.{
  pos_part, ℤ, pos, ◌≤ℤ◌, ℕ, zero, suc, ◌+◌, ◌-◌, ◌<◌, ◌%◌, ◌≡◌, refl, ap, ◌∙◌, inl, inr, String,
  some, List, [], ◌∷◌, ◌++◌, returns, panics, ◌>>=◌, length, length-append, get_elem?, In, arith,
}
use cs426_spring2022_labs.Stress.{
  StressTester, fresh_tester, chars, pick, random_letters, random_string, random_keys,
  make_stress_tester, launch,
}

get_elem?-In :
    (out : List String) (i : ℕ)
    → i < length out
    → (c : String) × (get_elem? out i ≡ some c) × In c out
get_elem?-In [] i h = absurd (omega (arith, h))
get_elem?-In (x ∷ out) zero h = (x, refl, inl refl)
get_elem?-In (x ∷ out) (suc i) h =
    let (c, q, j) = get_elem?-In out i (omega (arith, h)) in (c, q, inr j)

mod_below : (a b : ℕ) → 0 < b → a % b < b
mod_below a b h = grind arith

-- A draw from a list that is not empty is one of its elements.
pick_lem :
    (draw : ℕ) (out : List String)
    → 0 < length out
    → (c : String) × (pick draw out ≡ returns c) × In c out
unfolding pick
pick_lem draw out h =
    let (c, q, i) = get_elem?-In out (draw % length out) (mod_below draw (length out) h) in
    (c, ground (arith, h, q), i)

module _ {R : Type 0} (int : R → R × ℕ) where
  random_letters_returns :
      (n : ℕ) (out : String) (rng : R)
      → (drawn : R × String) × (random_letters int n out rng ≡ returns drawn)
  unfolding random_letters pick
  random_letters_returns zero out rng = ((rng, out), refl)
  random_letters_returns (suc n) out rng =
      let (c, q, i) = pick_lem (int rng).1 chars (omega arith) in
      let (drawn, r) = random_letters_returns n (concat out c) (int rng).0 in
      (drawn, ap (λ o. o >>= λ c. random_letters int n (concat out c) (int rng).0) q ∙ r)

  random_keys_returns :
      (rng : R) (n k : ℕ) (out : List String)
      → (keys : List String) × (random_keys int rng n k out ≡ returns keys)
        × (length keys ≡ length out + n)
  unfolding random_keys random_string
  random_keys_returns rng zero k out = (out, refl, omega arith)
  random_keys_returns rng (suc n) k out =
      let ((rng', s), q) = random_letters_returns k "" rng in
      let (keys, r, l) = random_keys_returns rng' n k (out ++ s ∷ []) in
      (keys, rw q r, omega (arith, l, length-append out (s ∷ [])))

  -- `makeStressTester` never panics and makes as many keys as the flag says, or none if that is negative.
  -- If the flag is at least 1, no draw of a loop panics, and it draws one of the keys; if it is 0 or
  -- negative, the first draw panics.
  pub make_stress_tester_lem :
      (rng : R) (max_pending : ℕ) (num_keys : ℤ)
      → (st : StressTester) × (make_stress_tester int rng max_pending num_keys ≡ returns st)
        × (length st.keys ≡ pos_part num_keys)
        × ((draw : ℕ)
            → pos 1 ≤ℤ num_keys
            → (key : String) × (st' : StressTester) × (launch draw st ≡ returns (st', key))
              × In key st.keys)
        × ((draw : ℕ) → num_keys ≤ℤ pos 0 → launch draw st ≡ panics)
  unfolding make_stress_tester launch pick
  make_stress_tester_lem rng max_pending num_keys =
      let (keys, q, l) = random_keys_returns rng (pos_part num_keys) 10 [] in
      (
        fresh_tester max_pending keys,
        rw q refl,
        omega (arith, l),
        (λ draw some_key.
            let (key, r, i) = pick_lem draw keys (omega (arith, l, some_key)) in
            (
              key,
              record (fresh_tester max_pending keys) { sem = max_pending - 1; wg = 1 },
              rw r refl,
              i,
            )),
        λ draw no_key. no_pick draw keys (ground (arith, l, no_key)),
      )
    where
      no_pick :
          (draw : ℕ) (keys : List String)
          → length keys ≡ 0
          → launch draw (fresh_tester max_pending keys) ≡ panics
      no_pick draw [] e = refl
      no_pick draw (k ∷ keys) e = absurd (omega (arith, e))
