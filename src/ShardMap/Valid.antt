-- ===== src/ShardMap/Valid.antt =====
-- What `IsValid` of lab4/kv/shardmap.go decides, and the count test that it makes first.
use cs426_spring2022_labs.Common.{
  String, ◌≡◌, refl, ◌↔◌, inl, inr, true, none, List, [], ◌∷◌, ◌||◌, length, All, In, Distinct,
  ltb_ℤ, ℤ, pos, ◌≤ℤ◌, arith, Bool-cases, Option-cases, string_key, int_key,
}
use cs426_spring2022_labs.Common.GoMap.{
  GoMap, get, insert, keys, get-insert, In-of_get, In-keys, get_of_In-keys,
}
use cs426_spring2022_labs.ShardMap.{NodeInfo, ShardMapState, check_nodes, check_shards, is_valid}

-- The names of one shard: each is a node of the cluster, and none stands twice.
pub record IsPlaced (nodes : GoMap String NodeInfo) (names : List String) : Type 0 where
  pub known : All (λ n. In n (keys nodes)) names
  pub distinct : Distinct names

-- One entry of `ShardsToNodes`.
pub record IsAssigned (nodes : GoMap String NodeInfo) (num_shards : ℤ) (e : ℤ × List String)
    : Type 0 where
  pub from_one : pos 1 ≤ℤ e.0
  pub to_num_shards : e.0 ≤ℤ num_shards
  pub placed : IsPlaced nodes e.1

pub record IsConsistent (s : ShardMapState) : Type 0 where
  pub fits : pos (length s.shards_to_nodes) ≤ℤ s.num_shards
  pub assigned : All (IsAssigned s.nodes s.num_shards) s.shards_to_nodes

-- `node_set` holds none of the names that are still to come.
abbrev Unseen : GoMap String (Unit {0}) → List String → Type 0
Unseen node_set = All (λ n. get node_set n ≡ none)

Unseen-insert :
    (node_set : GoMap String (Unit {0})) (n : String) (rest : List String)
    → ¬ In n rest
    → Unseen node_set rest
    → Unseen (insert node_set n tt) rest
Unseen-insert node_set n [] h u = tt
Unseen-insert node_set n (x ∷ rest) h u = (
  ground (arith, get-insert node_set n x tt, h, u.0),
  Unseen-insert node_set n rest (λ i. h (inr i)) u.1,
)

Unseen-of_insert :
    (node_set : GoMap String (Unit {0})) (n : String) (rest : List String)
    → Unseen (insert node_set n tt) rest
    → (¬ In n rest) × Unseen node_set rest
Unseen-of_insert node_set n [] u = ((λ i. i.0), tt)
Unseen-of_insert node_set n (x ∷ rest) u =
    let ih = Unseen-of_insert node_set n rest u.1 in
    (
      elim [ inl e ↦ ground (arith, get-insert node_set n x tt, u.0) | inr i ↦ ih.0 i ],
      (ground (arith, get-insert node_set n x tt, u.0), ih.1),
    )

check_nodes_sound :
    (nodes : GoMap String NodeInfo) (node_set : GoMap String (Unit {0})) (names : List String)
    → check_nodes nodes node_set names ≡ true
    → IsPlaced nodes names × Unseen node_set names
unfolding check_nodes
check_nodes_sound nodes node_set [] h = (record { known = tt; distinct = tt }, tt)
check_nodes_sound nodes node_set (n ∷ rest) h = elim (Option-cases (get nodes n)) [
  | inl e ↦ cc (rw (e, check_nodes) at h)
  | inr (info, e) ↦ elim (Option-cases (get node_set n)) [
    | inr (u, d) ↦ ground arith
    | inl d ↦
        let (p, u) = check_nodes_sound nodes (insert node_set n tt) rest (ground arith) in
        let (fresh, unseen) = Unseen-of_insert node_set n rest u in
        (
          record {
            known = (In-keys nodes n info (In-of_get nodes n info e), p.known);
            distinct = (fresh, p.distinct);
          },
          (d, unseen),
        )
  ]
]

check_nodes_complete :
    (nodes : GoMap String NodeInfo) (node_set : GoMap String (Unit {0})) (names : List String)
    → IsPlaced nodes names
    → Unseen node_set names
    → check_nodes nodes node_set names ≡ true
unfolding check_nodes
check_nodes_complete nodes node_set [] p u = refl
check_nodes_complete nodes node_set (n ∷ rest) p u =
    let (info, e) = get_of_In-keys nodes n p.known.0 in
    let ih =
      check_nodes_complete nodes (insert node_set n tt) rest
        (record { known = p.known.1; distinct = p.distinct.1 })
        (Unseen-insert node_set n rest p.distinct.0 u.1) in
    ground (arith, e, ih, u.0)

pub check_shards_sound :
    (nodes : GoMap String NodeInfo) (num_shards : ℤ) (m : GoMap ℤ (List String))
    → check_shards nodes num_shards m ≡ true
    → All (IsAssigned nodes num_shards) m
unfolding check_shards
check_shards_sound nodes num_shards [] h = tt
check_shards_sound nodes num_shards ((shard, names) ∷ rest) h =
    elim (Bool-cases (ltb_ℤ shard (pos 1) || ltb_ℤ num_shards shard)) [
      | inl e ↦ cc (rw (e, check_shards) at h)
      | inr e ↦ elim (Bool-cases (check_nodes nodes [] names)) [
        | inr d ↦ cc (rw (e, d, check_shards) at h)
        | inl d ↦ (
          record {
            from_one = ground arith;
            to_num_shards = ground arith;
            placed = (check_nodes_sound nodes [] names d).0;
          },
          check_shards_sound nodes num_shards rest (rw (e, d, check_shards) at h),
        )
      ]
    ]

Unseen-nil : (names : List String) → Unseen [] names
unfolding get
Unseen-nil [] = tt
Unseen-nil (n ∷ names) = (refl, Unseen-nil names)

check_shards_complete :
    (nodes : GoMap String NodeInfo) (num_shards : ℤ) (m : GoMap ℤ (List String))
    → All (IsAssigned nodes num_shards) m
    → check_shards nodes num_shards m ≡ true
unfolding check_shards
check_shards_complete nodes num_shards [] h = refl
check_shards_complete nodes num_shards ((shard, names) ∷ rest) (a, h) = ground (
  arith,
  a.from_one,
  a.to_num_shards,
  check_nodes_complete nodes [] names a.placed (Unseen-nil names),
  check_shards_complete nodes num_shards rest h,
)

-- `IsValid` answers true exactly on the consistent states: no more entries than shards, each shard
-- number from 1 to `NumShards`, each name that of a node, and no name twice for one shard.
pub is_valid_iff : (s : ShardMapState) → (is_valid s ≡ true) ↔ IsConsistent s
unfolding is_valid
is_valid_iff s = (
  λ h. record {
    fits = ground arith;
    assigned = check_shards_sound s.nodes s.num_shards s.shards_to_nodes (ground arith);
  },
  λ c.
      ground
        (arith, c.fits, check_shards_complete s.nodes s.num_shards s.shards_to_nodes c.assigned),
)
