-- ===== src/ShardMap/Queries.antt =====
-- `ShardsForNode` and `NodesForShard` of lab4/kv/shardmap.go are two views of one relation.
use cs426_spring2022_labs.Common.{
  Distinct-snoc, String, ◌≡◌, refl, ap, sym, ◌↔◌, ◌⊎◌, inl, inr, if_pos, if_neg, List, [], ◌∷◌,
  ◌++◌, All, In, Distinct, ℤ, Option-cases, string_key, int_key, In-append, In-append_left,
  In-append_right,
}
use cs426_spring2022_labs.Common.GoMap.{GoMap, get, keys, Unique, In-of_get, get_of_In}
use cs426_spring2022_labs.ShardMap.{
  ShardMapState, append_matching, collect_shards, shards_for_node, nodes_for_shard,
}
use cs426_spring2022_labs.ShardMap.Valid.{IsAssigned, IsConsistent}

-- The entry of `shard` lists `node_name`.
abbrev Hosts : String → ℤ → GoMap ℤ (List String) → Type 0
Hosts node_name shard m = (names : List String) × In (shard, names) m × In node_name names

module _ (n : String) (z : ℤ) where
  In-append_matching :
      (shard : ℤ) (names : List String) (acc : List ℤ)
      → In z (append_matching n shard names acc)
      → In z acc ⊎ ((z ≡ shard) × In n names)
  unfolding append_matching
  In-append_matching shard [] acc h = inl h
  In-append_matching shard (x ∷ names) acc h = elim (string_key.same x n) [
    | no ne ↦ elim (In-append_matching shard names acc (rw (if_neg _ ne, append_matching) at h)) [
      | inl i ↦ inl i
      | inr (e, i) ↦ inr (e, inr i)
    ]
    | yes e ↦
        elim (In-append_matching shard names (acc ++ shard ∷ [])
          (rw (if_pos _ e, append_matching) at h)) [
            | inr (e', i) ↦ inr (e', inr i)
            | inl i ↦ elim (In-append z acc (shard ∷ []) i) [
              | inl j ↦ inl j
              | inr (inl e') ↦ inr (e', inl (sym e))
              | inr (inr j) ↦ absurd j.0
            ]
          ]
  ]

  append_matching_keeps :
      (shard : ℤ) (names : List String) (acc : List ℤ)
      → In z acc
      → In z (append_matching n shard names acc)
  unfolding append_matching
  append_matching_keeps shard [] acc h = h
  append_matching_keeps shard (x ∷ names) acc h = elim (string_key.same x n) [
    | no ne ↦ rw (if_neg _ ne) (append_matching_keeps shard names acc h)
    | yes e ↦ rw (if_pos _ e) (
        append_matching_keeps shard names (acc ++ shard ∷ []) (In-append_left z acc (shard ∷ []) h))
  ]

  append_matching_adds :
      (names : List String) (acc : List ℤ) → In n names → In z (append_matching n z names acc)
  unfolding append_matching
  append_matching_adds [] acc h = absurd h.0
  append_matching_adds (x ∷ names) acc (inl e) =
      rw (if_pos _ (sym e))
        (append_matching_keeps z names (acc ++ z ∷ []) (In-append_right z acc (z ∷ []) (inl refl)))
  append_matching_adds (x ∷ names) acc (inr h) = append_matching_adds names _ h

  In-collect_shards :
      (m : GoMap ℤ (List String)) (acc : List ℤ)
      → In z (collect_shards n m acc)
      → In z acc ⊎ Hosts n z m
  unfolding collect_shards
  In-collect_shards [] acc h = inl h
  In-collect_shards ((shard, names) ∷ m) acc h =
      elim (In-collect_shards m (append_matching n shard names acc) h) [
        | inr (ns, i, j) ↦ inr (ns, inr i, j)
        | inl i ↦ elim (In-append_matching shard names acc i) [
          | inl j ↦ inl j
          | inr (e, j) ↦ inr (names, inl (ap (λ t. (t, names)) e), j)
        ]
      ]

  collect_shards_keeps :
      (m : GoMap ℤ (List String)) (acc : List ℤ) → In z acc → In z (collect_shards n m acc)
  unfolding collect_shards
  collect_shards_keeps [] acc h = h
  collect_shards_keeps ((shard, names) ∷ m) acc h =
      collect_shards_keeps m (append_matching n shard names acc)
        (append_matching_keeps shard names acc h)

  collect_shards_adds :
      (m : GoMap ℤ (List String)) (acc : List ℤ) → Hosts n z m → In z (collect_shards n m acc)
  unfolding collect_shards
  collect_shards_adds [] acc h = absurd h.1.0
  collect_shards_adds ((shard, names) ∷ m) acc (ns, inr i, j) = collect_shards_adds m _ (ns, i, j)
  collect_shards_adds ((shard, names) ∷ m) acc (ns, inl e, j) =
      collect_shards_keeps m (append_matching n shard names acc)
        (rw (← ap (λ p. p.0) e, ← ap (λ p. p.1) e) (append_matching_adds ns acc j))

-- A shard is among a node's shards exactly if the node is among the shard's nodes.
pub shards_for_node-nodes_for_shard :
    (s : ShardMapState) (node_name : String) (shard : ℤ)
    → Unique s.shards_to_nodes
    → In shard (shards_for_node s node_name) ↔ In node_name (nodes_for_shard s shard)
unfolding shards_for_node nodes_for_shard
shards_for_node-nodes_for_shard s n z u = (
  λ h. elim (In-collect_shards n z s.shards_to_nodes [] h) [
    | inl i ↦ absurd i.0
    | inr (names, i, j) ↦ rw (get_of_In s.shards_to_nodes z names u i, nodes_for_shard) j
  ],
  λ h. elim (Option-cases (get s.shards_to_nodes z)) [
    | inl e ↦ absurd ((rw (e, nodes_for_shard) at h).0)
    | inr (names, e) ↦
        collect_shards_adds n z s.shards_to_nodes []
          (names, In-of_get s.shards_to_nodes z names e, rw (e, nodes_for_shard) at h)
  ],
)

append_matching_absent :
    (n : String) (shard : ℤ) (names : List String) (acc : List ℤ)
    → ¬ In n names
    → append_matching n shard names acc ≡ acc
unfolding append_matching
append_matching_absent n shard [] acc h = refl
append_matching_absent n shard (x ∷ names) acc h =
    rw (if_neg _ (λ e. h (inl (sym e)))) (append_matching_absent n shard names acc (λ i. h (inr i)))

append_matching-Distinct :
    (n : String) (shard : ℤ) (names : List String) (acc : List ℤ)
    → Distinct names
    → Distinct acc
    → ¬ In shard acc
    → Distinct (append_matching n shard names acc)
unfolding append_matching
append_matching-Distinct n shard [] acc dn da h = da
append_matching-Distinct n shard (x ∷ names) acc dn da h = elim (string_key.same x n) [
  | no ne ↦ rw (if_neg _ ne) (append_matching-Distinct n shard names acc dn.1 da h)
  | yes e ↦
      rw (if_pos _ e, append_matching_absent n shard names (acc ++ shard ∷ []) (rw e at dn.0))
        (Distinct-snoc shard acc da h)
]

-- None of the keys that are still to come is among the shards collected.
collect_shards-Distinct :
    (n : String) (m : GoMap ℤ (List String)) (acc : List ℤ)
    → Unique m
    → All (λ e. Distinct e.1) m
    → Distinct acc
    → All (λ e. ¬ In e.0 acc) m
    → Distinct (collect_shards n m acc)
unfolding collect_shards
collect_shards-Distinct n [] acc u d da f = da
collect_shards-Distinct n ((shard, names) ∷ m) acc u (dn, d) da (f0, f) =
    collect_shards-Distinct n m (append_matching n shard names acc) u.1 d
      (append_matching-Distinct n shard names acc dn da f0) (fresh m u.0 f)
  where
    fresh :
        (m : GoMap ℤ (List String))
        → ¬ In shard (keys m)
        → All (λ e. ¬ In e.0 acc) m
        → All (λ e. ¬ In e.0 (append_matching n shard names acc)) m
    fresh [] h f = tt
    fresh (e ∷ m) h (g, f) = (
      λ i. elim (In-append_matching n e.0 shard names acc i) [
        | inl j ↦ g j
        | inr (p, _) ↦ h (inl (sym p))
      ],
      fresh m (λ i. h (inr i)) f,
    )

all_placed :
    (s : ShardMapState) (m : GoMap ℤ (List String))
    → All (IsAssigned s.nodes s.num_shards) m
    → All (λ e. Distinct e.1) m
all_placed s [] a = tt
all_placed s (e ∷ m) (a, r) = (a.placed.distinct, all_placed s m r)

none_collected : (m : GoMap ℤ (List String)) → All (λ e. ¬ In e.0 []) m
none_collected [] = tt
none_collected (e ∷ m) = ((λ i. i.0), none_collected m)

-- On a consistent state `ShardsForNode` lists no shard twice.
pub shards_for_node-Distinct :
    (s : ShardMapState) (node_name : String)
    → IsConsistent s
    → Unique s.shards_to_nodes
    → Distinct (shards_for_node s node_name)
unfolding shards_for_node
shards_for_node-Distinct s n c u =
    collect_shards-Distinct n s.shards_to_nodes [] u (all_placed s s.shards_to_nodes c.assigned) tt
      (none_collected s.shards_to_nodes)
