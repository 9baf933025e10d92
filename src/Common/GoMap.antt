-- ===== src/Common/GoMap.antt =====
-- Go's maps as association lists. The order of the list is the order in which `range` visits the
-- entries, which Go leaves open: a statement about every list is one about every order.
use cs426_spring2022_labs.Common.Tests.{Key}
use cs426_spring2022_labs.Common.Lists.{All, In, Distinct}
use mathlib.Core.Path.{◌≡◌, refl, ap, ◌∙◌}
use mathlib.Core.Logic.{◌≢◌, ◌⊎◌, inl, inr, ite, if_pos, if_neg}
use mathlib.Core.Option.{Option, none, some}
use mathlib.Core.List.{List, [], ◌∷◌, ◌++◌, map}
use native.Mathlib.Omega.{arith}

abbrev pub GoMap {ℓ κ} : Type ℓ → Type κ → Type (ℓ ⊔ κ)
GoMap K V = List (K × V)

module _ {ℓ} {K V : Type ℓ} where
  abbrev pub keys : GoMap K V → List K
  keys = map (λ e. e.0)

  module _ ⦃k : Key K⦄ where
    -- `v, ok := m[key]`
    unfoldable pub get : GoMap K V → K → Option V
    get [] key = none
    get ((j, v) ∷ m) key = ite (k.same key j) (some v) (get m key)

    -- `m[key] = v`
    unfoldable pub insert : GoMap K V → K → V → GoMap K V
    insert [] key v = (key, v) ∷ []
    insert ((j, w) ∷ m) key v = ite (k.same key j) ((j, v) ∷ m) ((j, w) ∷ insert m key v)

    -- `delete(m, key)`
    unfoldable pub delete : GoMap K V → K → GoMap K V
    delete [] key = []
    delete ((j, w) ∷ m) key = ite (k.same key j) m ((j, w) ∷ delete m key)

    -- `m[key]`, which is the zero value where the key is missing
    unfoldable pub get_or : GoMap K V → K → V → V
    unfolding get
    get_or m key zero_value = elim (get m key) [ none ↦ zero_value | some v ↦ v ]

    pub get-insert :
        (m : GoMap K V) (key j : K) (v : V)
        → get (insert m key v) j ≡ ite (k.same j key) (some v) (get m j)
    unfolding get insert
    get-insert [] key j v = refl
    get-insert ((i, w) ∷ m) key j v = ground (arith, get-insert m key j v)

    pub get_or-insert :
        (m : GoMap K V) (key j : K) (v z : V)
        → get_or (insert m key v) j z ≡ ite (k.same j key) v (get_or m j z)
    unfolding get_or
    get_or-insert m key j v z = ground (arith, get-insert m key j v)

    -- `len(m)` counts keys: no key stands twice.
    abbrev pub Unique : GoMap K V → Type ℓ
    Unique m = Distinct (keys m)

    pub In-of_get : (m : GoMap K V) (key : K) (v : V) → get m key ≡ some v → In (key, v) m
    unfolding get
    In-of_get [] key v h = cc
    In-of_get ((j, w) ∷ m) key v h = elim (k.same key j) [
      | yes e ↦ inl (ground arith)
      | no ne ↦ inr (In-of_get m key v (ground arith))
    ]

    pub In-keys : (m : GoMap K V) (key : K) (v : V) → In (key, v) m → In key (keys m)
    In-keys [] key v h = absurd h.0
    In-keys (e ∷ m) key v (inl p) = inl (ap (λ e. e.0) p)
    In-keys (e ∷ m) key v (inr h) = inr (In-keys m key v h)

    pub get_of_In :
        (m : GoMap K V) (key : K) (v : V) → Unique m → In (key, v) m → get m key ≡ some v
    unfolding get
    get_of_In [] key v u h = absurd h.0
    get_of_In ((j, w) ∷ m) key v u (inl p) = ground arith
    get_of_In ((j, w) ∷ m) key v u (inr h) = elim (k.same key j) [
      | yes e ↦ absurd (u.0 (rw (← e) (In-keys m key v h)))
      | no ne ↦ ground (arith, get_of_In m key v u.1 h)
    ]

    pub get-eq-none_of_not-In : (m : GoMap K V) (key : K) → ¬ In key (keys m) → get m key ≡ none
    unfolding get
    get-eq-none_of_not-In [] key h = refl
    get-eq-none_of_not-In ((j, w) ∷ m) key h =
        ground (arith, get-eq-none_of_not-In m key (λ i. h (inr i)), h)

    pub In-keys-insert :
        (m : GoMap K V) (key j : K) (v : V)
        → In j (keys (insert m key v))
        → (j ≡ key) ⊎ In j (keys m)
    unfolding insert
    In-keys-insert [] key j v (inl e) = inl e
    In-keys-insert [] key j v (inr h) = absurd h.0
    In-keys-insert ((i, w) ∷ m) key j v h = ground (arith, In-keys-insert m key j v)

    pub insert-Unique : (m : GoMap K V) (key : K) (v : V) → Unique m → Unique (insert m key v)
    unfolding insert
    insert-Unique [] key v u = ((λ h. h.0), tt)
    insert-Unique ((i, w) ∷ m) key v u =
        ground (arith, insert-Unique m key v u.1, In-keys-insert m key i v, u.0)

    pub get-delete :
        (m : GoMap K V) (key j : K)
        → Unique m
        → get (delete m key) j ≡ ite (k.same j key) none (get m j)
    unfolding get delete
    get-delete [] key j u = ground arith
    get-delete ((i, w) ∷ m) key j u =
        ground (arith, get-delete m key j u.1, get-eq-none_of_not-In m j, u.0)

    pub get_of_In-keys :
        (m : GoMap K V) (key : K) → In key (keys m) → (v : V) × (get m key ≡ some v)
    unfolding get
    get_of_In-keys [] key h = absurd h.0
    get_of_In-keys ((j, w) ∷ m) key h = elim (k.same key j) [
      | yes e ↦ (w, rw (if_pos _ e))
      | no ne ↦
          let (v, p) = get_of_In-keys m key (elim h [ inl e ↦ absurd (ne e) | inr i ↦ i ]) in
          (v, rw (if_neg _ ne) p)
    ]

    pub All-delete {κ} :
        (P : K × V → Type κ) (m : GoMap K V) (key : K) → All P m → All P (delete m key)
    unfolding delete
    All-delete P [] key h = tt
    All-delete P ((j, w) ∷ m) key h = elim (k.same key j) [
      | yes e ↦ rw (if_pos _ e) h.1
      | no ne ↦ rw (if_neg _ ne) (h.0, All-delete P m key h.1)
    ]

    pub All-insert {κ} :
        (P : K × V → Type κ) (m : GoMap K V) (key : K) (v : V)
        → ((j : K) → P (j, v))
        → All P m
        → All P (insert m key v)
    unfolding insert
    All-insert P [] key v p h = (p key, tt)
    All-insert P ((j, w) ∷ m) key v p h = elim (k.same key j) [
      | yes e ↦ rw (if_pos _ e) (p j, h.1)
      | no ne ↦ rw (if_neg _ ne) (h.0, All-insert P m key v p h.1)
    ]

    pub In-map-delete :
        {B : Type ℓ} (f : K × V → B) (m : GoMap K V) (key : K) (b : B)
        → In b (map f (delete m key))
        → In b (map f m)
    unfolding delete
    In-map-delete f [] key b h = h
    In-map-delete f ((j, w) ∷ m) key b h = elim (k.same key j) [
      | yes e ↦ inr (rw (if_pos _ e) at h)
      | no ne ↦ elim (let h' : In b (map f ((j, w) ∷ delete m key)) = rw (if_neg _ ne) at h in h') [
        | inl e ↦ inl e
        | inr i ↦ inr (In-map-delete f m key b i)
      ]
    ]

    -- So no key, and no value that stood once, stands twice after a delete.
    pub delete-Distinct :
        {B : Type ℓ} (f : K × V → B) (m : GoMap K V) (key : K)
        → Distinct (map f m)
        → Distinct (map f (delete m key))
    unfolding delete
    delete-Distinct f [] key d = tt
    delete-Distinct f ((j, w) ∷ m) key d = elim (k.same key j) [
      | yes e ↦ rw (if_pos _ e) d.1
      | no ne ↦
          rw (if_neg _ ne)
            (λ i. d.0 (In-map-delete f m key (f (j, w)) i), delete-Distinct f m key d.1)
    ]

    In-of_In-delete : (m : GoMap K V) (key : K) (e : K × V) → In e (delete m key) → In e m
    unfolding delete
    In-of_In-delete [] key e h = h
    In-of_In-delete ((j, w) ∷ m) key e h = elim (k.same key j) [
      | yes p ↦ inr (rw (if_pos _ p) at h)
      | no ne ↦ elim (let h' : In e ((j, w) ∷ delete m key) = rw (if_neg _ ne) at h in h') [
        | inl p ↦ inl p
        | inr i ↦ inr (In-of_In-delete m key e i)
      ]
    ]

    In-map_of_In :
        {B : Type ℓ} (f : K × V → B) (m : GoMap K V) (e : K × V) → In e m → In (f e) (map f m)
    In-map_of_In f [] e h = absurd h.0
    In-map_of_In f (x ∷ m) e (inl p) = inl (ap f p)
    In-map_of_In f (x ∷ m) e (inr h) = inr (In-map_of_In f m e h)

    -- Where no value stands twice, the value of a deleted key is gone with it.
    pub not-In-map-delete :
        {B : Type ℓ} (f : K × V → B) (m : GoMap K V) (key : K) (v : V)
        → Distinct (map f m)
        → get m key ≡ some v
        → ¬ In (f (key, v)) (map f (delete m key))
    unfolding get delete
    not-In-map-delete f [] key v d h i = cc
    not-In-map-delete f ((j, w) ∷ m) key v d h i = elim (k.same key j) [
      | yes e ↦ let same : f (key, v) ≡ f (j, w) = ground arith in d.0 (rw (if_pos _ e, same) at i)
      | no ne ↦
          let found : get m key ≡ some v = ground arith in
          elim (let i' : In (f (key, v)) (map f ((j, w) ∷ delete m key)) = rw (if_neg _ ne) at i in
            i') [
              | inl e ↦ d.0 (rw (← e) (In-map_of_In f m (key, v) (In-of_get m key v found)))
              | inr i' ↦ not-In-map-delete f m key v d.1 found i'
            ]
    ]

    pub insert_new :
        (m : GoMap K V) (key : K) (v : V) → ¬ In key (keys m) → insert m key v ≡ m ++ (key, v) ∷ []
    unfolding insert
    insert_new [] key v h = refl
    insert_new ((j, w) ∷ m) key v h =
        rw (if_neg _ (λ e. h (inl e)), insert_new m key v (λ i. h (inr i)))

    pub get_or-insert_self : (m : GoMap K V) (key : K) (v z : V) → get_or (insert m key v) key z ≡ v
    get_or-insert_self m key v z = get_or-insert m key key v z ∙ if_pos (k.same key key) refl _ _

    pub get_or-insert_ne :
        (m : GoMap K V) (key j : K) (v z : V) → j ≢ key → get_or (insert m key v) j z ≡ get_or m j z
    get_or-insert_ne m key j v z ne = get_or-insert m key j v z ∙ if_neg (k.same j key) ne _ _

    pub get-insert_self : (m : GoMap K V) (key : K) (v : V) → get (insert m key v) key ≡ some v
    get-insert_self m key v = get-insert m key key v ∙ if_pos (k.same key key) refl _ _

    pub get-insert_ne :
        (m : GoMap K V) (key j : K) (v : V) → j ≢ key → get (insert m key v) j ≡ get m j
    get-insert_ne m key j v ne = get-insert m key j v ∙ if_neg (k.same j key) ne _ _
