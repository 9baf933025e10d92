-- ===== src/FileShardMap/Follows.antt =====
-- What state a shard map has that follows a file, lab4/kv/file_shardmap.go.
use Prim.Native.Nat.{bit_and}
use cs426_spring2022_labs.Common.{
  ℕ, ◌+◌, ◌≡◌, ◌≢◌, ◌↔◌, ◌⊎◌, refl, ap, sym, ◌∙◌, subst, inl, inr, String, Bool, true, false,
  Option, none, some, List, [], ◌∷◌, returns, ◌>>=◌, length, In, All, nat_key, string_key, zero,
  suc, if_pos, if_neg, ◌||◌, ◌==◌, not, Bool-cases, Option-cases, arith,
}
use cs426_spring2022_labs.ShardMap.{ShardMapState}
use cs426_spring2022_labs.Listeners.{Chan, ShardMap, entries, update}
use cs426_spring2022_labs.Listeners.Invariant.{
  Inv, IsReceiving, IsReceiving-Notifies, chans_of, update_lem,
}
use cs426_spring2022_labs.FileShardMap.{
  Ops, Disk, FileShardMap, apply_state, apply_from_file, Signal, event, failure, done, is_update,
  watch_round, watch_for_updates,
}

-- The signal is an event of the file itself, which was written or created.
abbrev pub Updates : Ops → String → Signal → Type 0
Updates ops filename signal =
    (op : ℕ) × (signal ≡ event (some (filename, op)))
    × ((bit_and op ops.write ≢ 0) ⊎ (bit_and op ops.create ≢ 0))

-- What a signal shows: nothing if it is of another kind or the file is bad, or the state in the file.
pub data Sees (ops : Ops) (filename : String) (disk : Disk) (signal : Signal)
    : Option ShardMapState → Type 0 where
  passes : ¬ Updates ops filename signal → Sees ops filename disk signal none
  unreadable :
      Updates ops filename signal
      → disk.read_file filename ≡ none
      → Sees ops filename disk signal none
  unparsed :
      Updates ops filename signal
      → (bytes : List ℕ) → disk.read_file filename ≡ some bytes
      → disk.unmarshal bytes ≡ none
      → Sees ops filename disk signal none
  good :
      Updates ops filename signal
      → (bytes : List ℕ) → disk.read_file filename ≡ some bytes
      → (state : ShardMapState) → disk.unmarshal bytes ≡ some state
      → Sees ops filename disk signal (some state)

abbrev pub and_then : Option ShardMapState → List ShardMapState → List ShardMapState
and_then none rest = rest
and_then (some state) rest = state ∷ rest

-- The states that the signals show, up to the one that ends the loop.
pub data Saw (ops : Ops) (filename : String)
    : List (Disk × Signal) → List ShardMapState → Type 0 where
  no_more : Saw ops filename [] []
  ends : (disk : Disk) (rest : List (Disk × Signal)) → Saw ops filename ((disk, done) ∷ rest) []
  next :
      (disk : Disk) (signal : Signal) (rest : List (Disk × Signal)) (o : Option ShardMapState)
      (states : List ShardMapState)
      → signal ≢ done
      → Sees ops filename disk signal o
      → Saw ops filename rest states
      → Saw ops filename ((disk, signal) ∷ rest) (and_then o states)

-- The last of them, or the one before.
abbrev pub last : Option ShardMapState → List ShardMapState → Option ShardMapState
last old [] = old
last old (state ∷ states) = last (some state) states

-- The shard map went through the states, and told each listener of each.
pub record Follows (states : List ShardMapState) (sm sm' : ShardMap) : Type 0 where
  pub valid : Inv sm'
  pub state : sm'.state ≡ last sm.state states
  pub listeners : sm'.update_channels ≡ sm.update_channels
  pub told :
      (ch : ℕ)
      → In ch (chans_of (entries sm.update_channels))
      → (sm'.channels ch).received ≡ (sm.channels ch).received + length states

Follows-nil : (sm : ShardMap) → Inv sm → Follows [] sm sm
Follows-nil sm v = record { valid = v; state = refl; listeners = refl; told = λ ch i. omega arith }

length-and_then :
    (o : Option ShardMapState) (states : List ShardMapState)
    → length (and_then o states) ≡ length (and_then o []) + length states
length-and_then none states = omega arith
length-and_then (some state) states = omega arith

last-and_then :
    (o : Option ShardMapState) (states : List ShardMapState) (old : Option ShardMapState)
    → last (last old (and_then o [])) states ≡ last old (and_then o states)
last-and_then none states old = refl
last-and_then (some state) states old = refl

Follows-next :
    (o : Option ShardMapState) (states : List ShardMapState) (sm sm₁ sm₂ : ShardMap)
    → Follows (and_then o []) sm sm₁
    → Follows states sm₁ sm₂
    → Follows (and_then o states) sm sm₂
Follows-next o states sm sm₁ sm₂ f g = record {
  valid = g.valid;
  state = g.state ∙ ap (λ old. last old states) f.state ∙ last-and_then o states sm.state;
  listeners = g.listeners ∙ f.listeners;
  told = λ ch i.
      let i' : In ch (chans_of (entries sm₁.update_channels)) =
        subst (λ u. In ch (chans_of (entries u))) (sym f.listeners) i in
      omega (arith, f.told ch i, g.told ch i', length-and_then o states);
}

abbrev pub AllReceive : ShardMap → Type 0
AllReceive sm = All (IsReceiving sm.channels) (entries sm.update_channels)

some_bit : (x y : ℕ) → ((not (x == 0) || not (y == 0)) ≡ true) ↔ ((x ≢ 0) ⊎ (y ≢ 0))
some_bit zero zero =
    ((λ h. absurd (cc h)), λ h. elim h [ inl e ↦ absurd (e refl) | inr e ↦ absurd (e refl) ])
some_bit zero (suc y) = ((λ h. inr (λ e. omega (arith, e))), λ h. ground arith)
some_bit (suc x) y = ((λ h. inl (λ e. omega (arith, e))), λ h. ground arith)

is_update_iff :
    (ops : Ops) (filename : String) (signal : Signal)
    → (is_update ops filename signal ≡ true) ↔ Updates ops filename signal
is_update_iff ops filename (event none) = ((λ h. absurd (cc h)), λ h. absurd (cc h.1))
is_update_iff ops filename (failure err) = ((λ h. absurd (cc h)), λ h. absurd (cc h.1))
is_update_iff ops filename done = ((λ h. absurd (cc h)), λ h. absurd (cc h.1))
is_update_iff ops filename (event (some (name, op))) =
    let bits = some_bit (bit_and op ops.write) (bit_and op ops.create) in
    elim (string_key.same name filename) [
      | no ne ↦ ((λ h. absurd (cc (rw (if_neg _ ne) at h))), λ h. absurd (ne (cc h.1)))
      | yes e ↦ (
        (λ h. (op, ap (λ n. event (some (n, op))) e, bits.0 (rw (if_pos _ e) at h))),
        λ h. let same : h.0 ≡ op = cc h.1 in rw (if_pos _ e) (bits.1 (rw same at h.2)),
      )
    ]

-- One round of the loop.
record Rounds (ops : Ops) (disk : Disk) (signal : Signal) (fsm : FileShardMap) : Type 0 where
  shown : Option ShardMapState
  after : FileShardMap
  returned : watch_round ops disk signal fsm ≡ returns after
  same_file : after.filename ≡ fsm.filename
  sees : Sees ops fsm.filename disk signal shown
  follows : Follows (and_then shown []) fsm.shard_map after.shard_map
  receive : AllReceive after.shard_map

apply_state_lem :
    (state : ShardMapState) (fsm : FileShardMap)
    → Inv fsm.shard_map
    → AllReceive fsm.shard_map
    → (sm : ShardMap) × (update fsm.shard_map state ≡ returns sm)
      × Follows (state ∷ []) fsm.shard_map sm
      × AllReceive sm
apply_state_lem state fsm v rs =
    let (sm, q, v', is, same, _, n) = update_lem fsm.shard_map state v rs in
    (
      sm,
      q,
      record {
        valid = v';
        state = is;
        listeners = same;
        told = λ ch i. omega (arith, ap (λ (c : Chan). c.received) (n.one_more ch i));
      },
      subst (λ u. All (IsReceiving sm.channels) (entries u)) (sym same)
          (IsReceiving-Notifies (entries fsm.shard_map.update_channels) fsm.shard_map.channels
            sm.channels n rs),
    )

still :
    (ops : Ops) (disk : Disk) (signal : Signal) (fsm : FileShardMap)
    → Inv fsm.shard_map
    → AllReceive fsm.shard_map
    → watch_round ops disk signal fsm ≡ returns fsm
    → Sees ops fsm.filename disk signal none
    → Rounds ops disk signal fsm
still ops disk signal fsm v rs q sees = record {
  shown = none;
  after = fsm;
  returned = q;
  same_file = refl;
  sees = sees;
  follows = Follows-nil fsm.shard_map v;
  receive = rs;
}

watch_round_lem :
    (ops : Ops) (disk : Disk) (signal : Signal) (fsm : FileShardMap)
    → Inv fsm.shard_map
    → AllReceive fsm.shard_map
    → Rounds ops disk signal fsm
unfolding watch_round apply_from_file apply_state
watch_round_lem ops disk signal fsm v rs = elim (Bool-cases (is_update ops fsm.filename signal)) [
  | inr off ↦
      still ops disk signal fsm v rs (rw (off, watch_round) refl)
        (passes (λ u. absurd (cc (off, (is_update_iff ops fsm.filename signal).1 u))))
  | inl on ↦
      let u = (is_update_iff ops fsm.filename signal).0 on in
      elim (Option-cases (disk.read_file fsm.filename)) [
        | inl q ↦
            still ops disk signal fsm v rs
              (rw (on, q, watch_round, apply_from_file, apply_state) refl) (unreadable u q)
        | inr (bytes, q) ↦ elim (Option-cases (disk.unmarshal bytes)) [
          | inl p ↦
              still ops disk signal fsm v rs
                (rw (on, q, p, watch_round, apply_from_file, apply_state) refl)
                (unparsed u bytes q p)
          | inr (state, p) ↦
              let (sm, e, f, rs') = apply_state_lem state fsm v rs in
              record {
                shown = some state;
                after = record fsm { shard_map = sm };
                returned = rw (on, q, p, watch_round, apply_from_file, apply_state, e) refl;
                same_file = refl;
                sees = good u bytes q state p;
                follows = f;
                receive = rs';
              }
        ]
      ]
]

-- How the loop goes over the signals.
pub record Watches (ops : Ops) (signals : List (Disk × Signal)) (fsm : FileShardMap) : Type 0 where
  pub states : List ShardMapState
  pub after : FileShardMap
  pub ended : Bool
  pub returned : watch_for_updates ops signals fsm ≡ returns (after, ended)
  pub saw : Saw ops fsm.filename signals states
  pub follows : Follows states fsm.shard_map after.shard_map

goes_on :
    (ops : Ops) (disk : Disk) (signal : Signal) (rest : List (Disk × Signal)) (fsm : FileShardMap)
    → Inv fsm.shard_map
    → AllReceive fsm.shard_map
    → signal ≢ done
    → watch_for_updates ops ((disk, signal) ∷ rest) fsm
      ≡ (watch_round ops disk signal fsm >>= watch_for_updates ops rest)
    → ((next : FileShardMap)
        → Inv next.shard_map
        → AllReceive next.shard_map
        → Watches ops rest next)
    → Watches ops ((disk, signal) ∷ rest) fsm
goes_on ops disk signal rest fsm v rs ne q go =
    let r = watch_round_lem ops disk signal fsm v rs in
    let w = go r.after r.follows.valid r.receive in
    record {
      states = and_then r.shown w.states;
      after = w.after;
      ended = w.ended;
      returned = q ∙ ap (λ o. o >>= watch_for_updates ops rest) r.returned ∙ w.returned;
      saw =
          next disk signal rest r.shown w.states ne r.sees
            (subst (λ (name : String). Saw ops name rest w.states) r.same_file w.saw);
      follows =
          Follows-next r.shown w.states fsm.shard_map r.after.shard_map w.after.shard_map r.follows
            w.follows;
    }

-- From a well-formed shard map, with somebody who goes on receiving for each registered listener, and
-- if nothing else changes the map meanwhile: the loop takes all the signals, or those up to the one that
-- ends it, and does not block; the map has the last of the states that the file held, and could be
-- read and parsed, at the events that say that it was written or created, or the one it had if there was
-- none; and each registered listener was told once of each of these states.
pub watch_for_updates_lem :
    (ops : Ops) (signals : List (Disk × Signal)) (fsm : FileShardMap)
    → Inv fsm.shard_map
    → AllReceive fsm.shard_map
    → Watches ops signals fsm
unfolding watch_for_updates
watch_for_updates_lem ops [] fsm v rs = record {
  states = [];
  after = fsm;
  ended = false;
  returned = refl;
  saw = no_more;
  follows = Follows-nil fsm.shard_map v;
}
watch_for_updates_lem ops ((disk, done) ∷ rest) fsm v rs = record {
  states = [];
  after = fsm;
  ended = true;
  returned = refl;
  saw = ends disk rest;
  follows = Follows-nil fsm.shard_map v;
}
watch_for_updates_lem ops ((disk, failure err) ∷ rest) fsm v rs =
    goes_on ops disk (failure err) rest fsm v rs (λ e. cc e) refl (watch_for_updates_lem ops rest)
watch_for_updates_lem ops ((disk, event e) ∷ rest) fsm v rs =
    goes_on ops disk (event e) rest fsm v rs (λ q. cc q) refl (watch_for_updates_lem ops rest)
