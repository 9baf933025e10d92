-- ===== src/Raft/Connections/Loops.antt =====
-- What a loop of `connect` or `disconnect` in lab2/raft/config.go enables.
use cs426_spring2022_labs.Common.{
  ℕ, zero, suc, ◌<◌, ◌≡◌, ◌≢◌, refl, ◌∙◌, inl, inr, Bool, true, false, Option, some, List, [], ◌∷◌,
  returns, Key, nat_key, Bool-cases, In, In-append, In-append_left, In-append_right, arith,
}
use cs426_spring2022_labs.Common.GoMap.{get_or, get_or-insert_self, get_or-insert_ne}
use cs426_spring2022_labs.Rpc.Network.{Network, enable}
use cs426_spring2022_labs.Raft.Connections.{upto, enable_one, enable_each}

pub In-upto : (j n : ℕ) → j < n → In j (upto n)
In-upto j zero h = absurd (omega (arith, h))
In-upto j (suc n) h = elim (nat_key.same j n) [
  | yes e ↦ In-append_right j (upto n) (n ∷ []) (inl e)
  | no ne ↦ In-append_left j (upto n) (n ∷ []) (In-upto j n (omega (arith, h, ne)))
]

pub upto-below : (j n : ℕ) → In j (upto n) → j < n
upto-below j zero h = absurd h.0
upto-below j (suc n) h = elim (In-append j (upto n) (n ∷ []) h) [
  | inl l ↦ omega (arith, upto-below j n l)
  | inr (inl e) ↦ omega (arith, e)
  | inr (inr b) ↦ absurd b.0
]

module _ {E : Type 0} ⦃end_key : Key E⦄ where
  -- Whether an end is enabled; a name that was never seen is not.
  abbrev pub is_enabled : Network E ℕ → E → Bool
  is_enabled net e = get_or net.enabled e false

  -- The loop over `js` under a test set the ends that `names` gives, and no other.
  pub record Sets (test : ℕ → Bool) (names : ℕ → E) (enabled : Bool) (js : List ℕ)
      (before after : Network E ℕ) : Type 0 where
    pub hit : (j : ℕ) → In j js → test j ≡ true → is_enabled after (names j) ≡ enabled
    pub stays : (e : E) → is_enabled before e ≡ enabled → is_enabled after e ≡ enabled
    pub miss :
        (e : E)
        → ((j : ℕ) → In j js → test j ≡ true → e ≢ names j)
        → is_enabled after e ≡ is_enabled before e

  is_enabled-enable_self :
      (net : Network E ℕ) (e : E) (on : Bool) → is_enabled (enable net e on) e ≡ on
  unfolding enable
  is_enabled-enable_self net e on = get_or-insert_self net.enabled e on false

  is_enabled-enable_ne :
      (net : Network E ℕ) (e f : E) (on : Bool)
      → e ≢ f
      → is_enabled (enable net f on) e ≡ is_enabled net e
  unfolding enable
  is_enabled-enable_ne net e f on ne = get_or-insert_ne net.enabled f e on false ne

  pub enable_each_lem :
      (test : ℕ → Bool) (endname : ℕ → Option E) (names : ℕ → E) (enabled : Bool) (js : List ℕ)
      (net : Network E ℕ)
      → ((j : ℕ) → In j js → endname j ≡ some (names j))
      → (after : Network E ℕ) × (enable_each test endname enabled js net ≡ returns after)
        × Sets test names enabled js net after
  unfolding enable_each enable_one
  enable_each_lem test endname names enabled [] net made =
      (net, refl, record { hit = λ j i t. absurd i.0; stays = λ e p. p; miss = λ e h. refl })
  enable_each_lem test endname names enabled (j ∷ js) net made = elim (Bool-cases (test j)) [
    | inr off ↦
        let (after, q, s) =
          enable_each_lem test endname names enabled js net (λ x i. made x (inr i)) in
        (
          after,
          rw (off, enable_each, enable_one) q,
          record {
            hit = λ x i t. elim i [ inl e ↦ absurd (cc (e, off, t)) | inr m ↦ s.hit x m t ];
            stays = s.stays;
            miss = λ e h. s.miss e (λ x i t. h x (inr i) t);
          },
        )
    | inl on ↦
        let mid = enable net (names j) enabled in
        let (after, q, s) =
          enable_each_lem test endname names enabled js mid (λ x i. made x (inr i)) in
        let here : is_enabled after (names j) ≡ enabled =
          s.stays (names j) (is_enabled-enable_self net (names j) enabled) in
        (
          after,
          rw (on, made j (inl refl), enable_each, enable_one) q,
          record {
            hit = λ x i t. elim i [ inl e ↦ rw e here | inr m ↦ s.hit x m t ];
            stays = λ e p. elim (end_key.same e (names j)) [
              | yes same ↦ rw same here
              | no ne ↦ s.stays e (is_enabled-enable_ne net e (names j) enabled ne ∙ p)
            ];
            miss = λ e h.
                s.miss e (λ x i t. h x (inr i) t)
                ∙ is_enabled-enable_ne net e (names j) enabled (h j (inl refl) on);
          },
        )
  ]
