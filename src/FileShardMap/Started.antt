-- ===== src/FileShardMap/Started.antt =====
-- How the watching of a shard map's file starts, and that `Shutdown` of it does not return,
-- lab4/kv/file_shardmap.go.
use cs426_spring2022_labs.Common.{
  ◌≡◌, ◌↔◌, refl, ap, ◌∙◌, inl, inr, String, Bool, true, false, Option, none, some, List, [], ◌∷◌,
  returns, blocks, ◌>>=◌, if◌then◌else◌, string_key, Bool-cases, >>=-eq-returns,
}
use cs426_spring2022_labs.ShardMap.{ShardMapState}
use cs426_spring2022_labs.Listeners.{zero_shard_map, notify, update}
use cs426_spring2022_labs.FileShardMap.{
  Ops, Disk, FileShardMap, contents, apply_state, apply_from_file, watch_shard_map_file, shutdown,
  Signal, event, failure, done, is_update, watch_round, watch_for_updates,
}

-- What is watched from the start: the state that the file holds, and nobody who listens.
abbrev pub started : String → ShardMapState → FileShardMap
started filename state = record {
  shard_map = record zero_shard_map { state = some state };
  filename = filename;
  done_made = false;
}

start_of :
    (o : Option ShardMapState) (filename : String)
    → (apply_state o (record { shard_map = zero_shard_map; filename = filename; done_made = false })
        >>= (λ applied. returns (if applied.1 then some applied.0 else none)))
      ≡ returns (elim o [ none ↦ none | some state ↦ some (started filename state) ])
unfolding apply_state update notify
start_of none filename = refl
start_of (some state) filename = refl

-- Of two ways to leave, with and without a state.
started_iff :
    (o : Option ShardMapState) (filename : String) (fsm : FileShardMap)
    → (elim o [ none ↦ none | some state ↦ some (started filename state) ] ≡ some fsm)
      ↔ ((state : ShardMapState) × (o ≡ some state) × (fsm ≡ started filename state))
started_iff none filename fsm = ((λ h. absurd (cc h)), λ h. absurd (cc h.1))
started_iff (some state) filename fsm =
    ((λ h. (state, refl, cc h)), λ h. let (other, e, q) = h in cc (e, q))

-- `WatchShardMapFile` always returns; it returns a map exactly if there is a watcher, it can watch the
-- directory, and the file can be read and parsed; then the map holds what the file holds, and nobody
-- listens.
pub watch_shard_map_file_iff :
    (made watched : Bool) (disk : Disk) (filename : String)
    → (o : Option FileShardMap) × (watch_shard_map_file made watched disk filename ≡ returns o)
      × ((fsm : FileShardMap)
          → (o ≡ some fsm) ↔ (
              (made ≡ true)
              × (watched ≡ true)
              × (state : ShardMapState) × (contents disk filename ≡ some state)
              × (fsm ≡ started filename state)))
unfolding watch_shard_map_file apply_from_file
watch_shard_map_file_iff false watched disk filename =
    (none, refl, λ fsm. ((λ h. absurd (cc h)), λ h. absurd (cc h.0)))
watch_shard_map_file_iff true false disk filename =
    (none, refl, λ fsm. ((λ h. absurd (cc h)), λ h. absurd (cc h.1)))
watch_shard_map_file_iff true true disk filename = (
  _,
  start_of (contents disk filename) filename,
  λ fsm.
      let r = started_iff (contents disk filename) filename fsm in
      (
        λ h. let (state, e, q) = r.0 h in (refl, refl, state, e, q),
        λ h. let (on, on', state, e, q) = h in r.1 (state, e, q),
      ),
)

-- Rounds of the loop do not make the channel.
apply_state_keeps :
    (o : Option ShardMapState) (fsm : FileShardMap) (a : FileShardMap × Bool)
    → apply_state o fsm ≡ returns a
    → a.0.done_made ≡ fsm.done_made
unfolding apply_state
apply_state_keeps none fsm a h = cc h
apply_state_keeps (some state) fsm a h =
    let (sm, q, r) = >>=-eq-returns (update fsm.shard_map state) _ a h in cc r

watch_round_keeps :
    (ops : Ops) (disk : Disk) (signal : Signal) (fsm fsm' : FileShardMap)
    → watch_round ops disk signal fsm ≡ returns fsm'
    → fsm'.done_made ≡ fsm.done_made
unfolding watch_round apply_from_file
watch_round_keeps ops disk signal fsm fsm' h =
    elim (Bool-cases (is_update ops fsm.filename signal)) [
      | inl on ↦
          let (a, q, r) =
            >>=-eq-returns (apply_state (contents disk fsm.filename) fsm)
              (λ applied. returns applied.0) fsm' (rw (on, watch_round, apply_from_file) at h) in
          cc (r, apply_state_keeps (contents disk fsm.filename) fsm a q)
      | inr off ↦ cc (rw (off, watch_round) at h)
    ]

watch_for_updates_keeps :
    (ops : Ops) (signals : List (Disk × Signal)) (fsm fsm' : FileShardMap) (ended : Bool)
    → watch_for_updates ops signals fsm ≡ returns (fsm', ended)
    → fsm'.done_made ≡ fsm.done_made
unfolding watch_for_updates
watch_for_updates_keeps ops [] fsm fsm' ended h = cc h
watch_for_updates_keeps ops ((disk, done) ∷ rest) fsm fsm' ended h = cc h
watch_for_updates_keeps ops ((disk, event e) ∷ rest) fsm fsm' ended h =
    let (mid, q, r) =
      >>=-eq-returns (watch_round ops disk (event e) fsm) (watch_for_updates ops rest) (fsm', ended)
        h in
    watch_for_updates_keeps ops rest mid fsm' ended r
    ∙ watch_round_keeps ops disk (event e) fsm mid q
watch_for_updates_keeps ops ((disk, failure err) ∷ rest) fsm fsm' ended h =
    let (mid, q, r) =
      >>=-eq-returns (watch_round ops disk (failure err) fsm) (watch_for_updates ops rest)
        (fsm', ended) h in
    watch_for_updates_keeps ops rest mid fsm' ended r
    ∙ watch_round_keeps ops disk (failure err) fsm mid q

-- `Shutdown` of a map that `WatchShardMapFile` returned never returns, whatever its loop has received,
-- since nothing makes the channel that it sends on.
pub shutdown-watch_shard_map_file :
    (made watched : Bool) (disk : Disk) (filename : String) (ops : Ops)
    (signals : List (Disk × Signal)) (fsm fsm' : FileShardMap) (ended : Bool)
    → watch_shard_map_file made watched disk filename ≡ returns (some fsm)
    → watch_for_updates ops signals fsm ≡ returns (fsm', ended)
    → shutdown fsm' ≡ blocks
unfolding shutdown
shutdown-watch_shard_map_file made watched disk filename ops signals fsm fsm' ended h h' =
    let (o, q, r) = watch_shard_map_file_iff made watched disk filename in
    let (on, on', state, e, is) = (r fsm).0 (cc (q, h)) in
    let unmade : fsm'.done_made ≡ false =
      watch_for_updates_keeps ops signals fsm fsm' ended h'
      ∙ ap (λ (f : FileShardMap). f.done_made) is in
    rw (unmade, shutdown) refl
