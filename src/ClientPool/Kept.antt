-- ===== src/ClientPool/Kept.antt =====
-- What concurrent calls of `GetClient` in lab4/kv/clientpool.go return.
use cs426_spring2022_labs.Common.{
  ◌≡◌, ◌⊎◌, refl, ◌∙◌, inl, inr, String, Option, none, some, ℤ, Outcome, returns, string_key,
  Option-cases, >>=-eq-returns, subst,
}
use cs426_spring2022_labs.Common.GoMap.{get, insert, get-insert_self, get-insert_ne}
use cs426_spring2022_labs.ShardMap.{NodeInfo}
use cs426_spring2022_labs.Listeners.{nodes}
use cs426_spring2022_labs.ClientPool.{
  keep_client, Clients, Dialed, connects, refused, Result, client, World, add_client, get_locked,
  get_client,
}

returns-injective {ℓ} : {A : Type ℓ} (a b : A) → returns a ≡ returns b → a ≡ b
returns-injective a b e = cc

module _ {C : Type 0} (format : String → ℤ → String) where
  -- Any number of calls by any threads, by what they do under the exclusive lock.
  pub data Runs (clients : Clients C) : Clients C → Type 0 where
    here : Runs clients clients
    next :
        {mid after : Clients C} (world : World C) (node_name : String) (result : Result C)
        → Runs clients mid
        → get_locked format world node_name mid ≡ returns (after, result)
        → Runs clients after

  -- A call leaves the map as it is, and returns no client but the one that is there; or it adds the
  -- client that it returns under a new name.
  Adds : String → Clients C → Clients C → Result C → Type 0
  Adds j clients after result =
      ((after ≡ clients) × ((c : C) → result ≡ client c → get clients j ≡ some c))
      ⊎ ((c : C) × (get clients j ≡ none) × (after ≡ insert clients j c) × (result ≡ client c))

  same_parts :
      (a b : Clients C) (x y : Result C)
      → ◌≡◌ {A = Outcome (Clients C × Result C)} (returns (a, x)) (returns (b, y))
      → (b ≡ a) × (y ≡ x)
  same_parts a b x y e = (cc e, cc e)

  keep_client-Adds :
      (j : String) (clients : Clients C) (d : Dialed C)
      → get clients j ≡ none
      → Adds j clients (keep_client j clients d).0 (keep_client j clients d).1
  unfolding keep_client Adds
  keep_client-Adds j clients (connects c) absent = inr (c, absent, refl, refl)
  keep_client-Adds j clients (refused err) absent = inl (refl, λ c e. absurd (cc e))

  add_client-Adds :
      (world : World C) (j : String) (clients : Clients C) (o : Option NodeInfo)
      → get clients j ≡ none
      → Adds j clients
          (add_client format world j clients o).0
          (add_client format world j clients o).1
  unfolding add_client Adds
  add_client-Adds world j clients none absent = inl (refl, λ c e. absurd (cc e))
  add_client-Adds world j clients (some info) absent =
      keep_client-Adds j clients (world.dial (format info.address info.port)) absent

  get_locked-Adds :
      (world : World C) (j : String) (clients after : Clients C) (result : Result C)
      → get_locked format world j clients ≡ returns (after, result)
      → Adds j clients after result
  unfolding get_locked Adds
  get_locked-Adds world j clients after result h = elim (Option-cases (get clients j)) [
    | inr (c, e) ↦
        let (m, r) = same_parts clients after (client c) result (rw (e, get_locked) at h) in
        inl (m, λ d q. cc (e, r, q))
    | inl e ↦
        let (known, k, q) =
          >>=-eq-returns (nodes world.shard_map)
            (λ known. returns (add_client format world j clients (get known j))) (after, result)
            (rw (e, get_locked) at h) in
        let same : add_client format world j clients (get known j) ≡ (after, result) =
          returns-injective _ _ q in
        subst (λ (x : Clients C × Result C). Adds j clients x.0 x.1) same
          (add_client-Adds world j clients (get known j) e)
  ]

  -- The clients that are there stay.
  get_locked_keeps :
      (world : World C) (j : String) (clients after : Clients C) (result : Result C)
      (node_name : String) (c : C)
      → get_locked format world j clients ≡ returns (after, result)
      → get clients node_name ≡ some c
      → get after node_name ≡ some c
  unfolding Adds
  get_locked_keeps world j clients after result node_name c h g =
      elim (get_locked-Adds world j clients after result h) [
        | inl (e, _) ↦ rw e g
        | inr (d, absent, e, _) ↦
            rw e (get-insert_ne clients j node_name d (λ p. absurd (cc (absent, p, g))) ∙ g)
      ]

  pub Runs-keeps :
      {clients after : Clients C} (node_name : String) (c : C)
      → Runs clients after
      → get clients node_name ≡ some c
      → get after node_name ≡ some c
  Runs-keeps node_name c here g = g
  Runs-keeps node_name c (next {mid} {after} world j result r h) g =
      get_locked_keeps world j mid after result node_name c h (Runs-keeps node_name c r g)

  get_locked_there :
      (world : World C) (j : String) (clients after : Clients C) (c : C)
      → get_locked format world j clients ≡ returns (after, client c)
      → get after j ≡ some c
  unfolding Adds
  get_locked_there world j clients after c h =
      elim (get_locked-Adds world j clients after (client c) h) [
        | inl (e, only) ↦ rw e (only c refl)
        | inr (d, absent, e, q) ↦ rw e (get-insert_self clients j d ∙ cc q)
      ]

  get_client_there :
      (world : World C) (j : String) (at_read at_lock after : Clients C) (c : C)
      → Runs at_read at_lock
      → get_client format world j at_read at_lock ≡ returns (after, client c)
      → get after j ≡ some c
  unfolding get_client
  get_client_there world j at_read at_lock after c r h = elim (Option-cases (get at_read j)) [
    | inl e ↦ get_locked_there world j at_lock after c (rw (e, get_client) at h)
    | inr (d, e) ↦
        let (m, q) = same_parts at_lock after (client d) (client c) (rw (e, get_client) at h) in
        rw m (Runs-keeps j d r e ∙ cc q)
  ]

  cached :
      (world : World C) (node_name : String) (at_read at_lock : Clients C) (c : C)
      → get at_lock node_name ≡ some c
      → ((d : C) → get at_read node_name ≡ some d → d ≡ c)
      → get_client format world node_name at_read at_lock ≡ returns (at_lock, client c)
  unfolding get_client get_locked
  cached world node_name at_read at_lock c g old = elim (Option-cases (get at_read node_name)) [
    | inl e ↦ rw (e, get_client, g, get_locked) refl
    | inr (d, e) ↦ rw (e, get_client, old d e) refl
  ]

  -- Once a call returned a client for a node, every later call for that node returns the same client and
  -- changes nothing, whatever calls run before it and between its two looks at the map, and whatever
  -- became of the shard map and of the node: no second connection is made.
  pub get_client_kept :
      (world later : World C) (node_name : String)
      (at_read at_lock after at_read' at_lock' : Clients C) (c : C)
      → Runs at_read at_lock
      → get_client format world node_name at_read at_lock ≡ returns (after, client c)
      → Runs after at_read'
      → Runs at_read' at_lock'
      → get_client format later node_name at_read' at_lock' ≡ returns (at_lock', client c)
  unfolding get_client
  get_client_kept world later node_name at_read at_lock after at_read' at_lock' c r h r' r'' =
      let there : get after node_name ≡ some c =
        get_client_there world node_name at_read at_lock after c r h in
      let g : get at_read' node_name ≡ some c = Runs-keeps node_name c r' there in
      cached later node_name at_read' at_lock' c (Runs-keeps node_name c r'' g) (λ d e. cc (e, g))
