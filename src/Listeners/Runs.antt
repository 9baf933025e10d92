-- ===== src/Listeners/Runs.antt =====
-- Any run of the methods that change a `ShardMap`, lab4/kv/shardmap.go.
use cs426_spring2022_labs.Common.{
  sym, ℕ, ◌≡◌, ◌∙◌, Bool, All, All-mono, In, write, Option, none, some, returns, blocks, panics,
  arith, nat_key, Option-cases, true, false, Bool-cases, write_self, inl, inr,
}
use cs426_spring2022_labs.Common.GoMap.{GoMap, get}
use cs426_spring2022_labs.ShardMap.{ShardMapState}
use cs426_spring2022_labs.Listeners.{
  ShardMap, ShardMapListener, zero_shard_map, entries, make_listener, update, close,
}
use cs426_spring2022_labs.Listeners.Invariant.{
  IsOpen, IsReceiving, IsReceiving-cases, Inv, Inv-zero_shard_map, Notifies, update_lem,
  update_blocks,
}
use cs426_spring2022_labs.Listeners.Methods.{make_listener_lem, Closes, close_map}

no_entry : (o : Option (GoMap ℕ ℕ)) (id ch : ℕ) → o ≡ none → ¬ (get (entries o) id ≡ some ch)
unfolding get
no_entry o id ch e g = ground arith

-- Closing a registered listener of a well-formed state returns. The listener's id and channel are
-- gone from those to notify, its channel is closed, every other id keeps its channel, and the new
-- state is well formed.
pub close_lem :
    (sm : ShardMap) (l : ShardMapListener)
    → Inv sm
    → get (entries sm.update_channels) l.id ≡ some l.ch
    → (sm' : ShardMap) × (close l sm ≡ returns sm') × Closes l sm sm'
close_lem sm l v g = elim (Option-cases sm.update_channels) [
  | inl e ↦ absurd (no_entry sm.update_channels l.id l.ch e g)
  | inr (m, e) ↦ close_map sm l m e v (rw e at g)
]

-- Whatever the state: once `Close` has returned, closing the same listener again panics.
pub close_again :
    (sm sm' : ShardMap) (l : ShardMapListener) → close l sm ≡ returns sm' → close l sm' ≡ panics
unfolding close
close_again sm sm' l h = elim (Bool-cases (sm.channels l.ch).closed) [
  | inl e ↦ cc (rw (e, close) at h)
  | inr e ↦
      ground (arith, write_self sm.channels l.ch (record (sm.channels l.ch) { closed = true }))
]

-- Somebody starts to receive from a channel, or stops.
abbrev pub turn : ShardMap → (ch : ℕ) → Bool → ShardMap
turn sm ch on = record sm {
  channels = write sm.channels ch (record (sm.channels ch) { receiving = on });
}

turn_closed :
    (sm : ShardMap) (ch : ℕ) (on : Bool) (x : ℕ)
    → ((turn sm ch on).channels x).closed ≡ (sm.channels x).closed
unfolding write
turn_closed sm ch on x = ground arith

pub turn_lem :
    (sm : ShardMap) (ch : ℕ) (on : Bool) (x : ℕ)
    → (((turn sm ch on).channels x).closed ≡ (sm.channels x).closed)
      × (((turn sm ch on).channels x).received ≡ (sm.channels x).received)
unfolding write
turn_lem sm ch on x = (turn_closed sm ch on x, ground arith)

Inv-turn : (sm : ShardMap) (ch : ℕ) (on : Bool) → Inv sm → Inv (turn sm ch on)
Inv-turn sm ch on v = record {
  ids_below = v.ids_below;
  chans_below = v.chans_below;
  ids_distinct = v.ids_distinct;
  chans_distinct = v.chans_distinct;
  all_open =
      All-mono (IsOpen sm.channels) (IsOpen (turn sm ch on).channels) (entries sm.update_channels)
        (λ e h. turn_closed sm ch on e.1 ∙ h) v.all_open;
}

-- One call that returns: a new listener, an update, or the closing of a listener that is registered;
-- or the receivers change.
pub data Step (sm sm' : ShardMap) : Type 0 where
  listens : sm' ≡ (make_listener sm).0 → Step sm sm'
  updates : (s : ShardMapState) → update sm s ≡ returns sm' → Step sm sm'
  closes :
      (l : ShardMapListener)
      → get (entries sm.update_channels) l.id ≡ some l.ch
      → close l sm ≡ returns sm'
      → Step sm sm'
  turns : (ch : ℕ) (on : Bool) → sm' ≡ turn sm ch on → Step sm sm'

pub data Reach (sm : ShardMap) : ShardMap → Type 0 where
  here : Reach sm sm
  next : {sm' sm'' : ShardMap} → Reach sm sm' → Step sm' sm'' → Reach sm sm''

pub returns-injective {ℓ} : {A : Type ℓ} (a b : A) → returns a ≡ returns b → a ≡ b
returns-injective a b e = cc

-- What an `Update` did that has returned.
pub update_returned :
    (sm sm' : ShardMap) (s : ShardMapState)
    → Inv sm
    → update sm s ≡ returns sm'
    → Inv sm'
      × (sm'.state ≡ some s)
      × (sm'.update_channels ≡ sm.update_channels)
      × (sm'.next_channel ≡ sm.next_channel)
      × Notifies (entries sm.update_channels) sm.channels sm'.channels
update_returned sm sm' s v e = elim (IsReceiving-cases sm.channels (entries sm.update_channels)) [
  | inl rs ↦
      let r = update_lem sm s v rs in
      rw (returns-injective sm' r.0 (sym e ∙ r.1)) (r.2, r.3, r.4, r.5, r.6)
  | inr (x, i, off) ↦ absurd (cc (e, update_blocks sm s v x i off))
]

Step-Inv : {sm sm' : ShardMap} → Step sm sm' → Inv sm → Inv sm'
Step-Inv {sm} (listens e) v = rw e (make_listener_lem sm v).0
Step-Inv {sm} {sm'} (updates s e) v = (update_returned sm sm' s v e).0
Step-Inv {sm} {sm'} (closes l g e) v =
    let r = close_lem sm l v g in rw (returns-injective sm' r.0 (sym e ∙ r.1)) r.2.valid
Step-Inv {sm} (turns ch on e) v = rw e (Inv-turn sm ch on v)

pub Reach-Inv : {sm sm' : ShardMap} → Inv sm → Reach sm sm' → Inv sm'
Reach-Inv v here = v
Reach-Inv v (next r st) = Step-Inv st (Reach-Inv v r)

-- How an `Update` ends: it returns, and each registered listener was told; or it blocks.
pub data Ends (sm : ShardMap) (s : ShardMapState) : Type 0 where
  tells :
      All (IsReceiving sm.channels) (entries sm.update_channels)
      → (sm' : ShardMap) → update sm s ≡ returns sm'
      → sm'.state ≡ some s
      → Notifies (entries sm.update_channels) sm.channels sm'.channels
      → Ends sm s
  stuck :
      (e : ℕ × ℕ)
      → In e (entries sm.update_channels)
      → (sm.channels e.1).receiving ≡ false
      → update sm s ≡ blocks
      → Ends sm s

pub update_of_Inv : (sm : ShardMap) (s : ShardMapState) → Inv sm → Ends sm s
update_of_Inv sm s v = elim (IsReceiving-cases sm.channels (entries sm.update_channels)) [
  | inl rs ↦ let u = update_lem sm s v rs in tells rs u.0 u.1 u.3 u.6
  | inr (e, i, off) ↦ stuck e i off (update_blocks sm s v e i off)
]

-- After any run from the zero value of new listeners, updates that return, closings of registered
-- listeners, and receivers that start and stop, `Update` ends in one of two ways, so it never sends on a
-- closed channel. If somebody goes on receiving for each registered listener it returns: it stores the
-- state, each registered listener gets exactly one notification, and no other channel any. If nobody
-- does for some registered listener it blocks.
pub update_of_Reach : (sm : ShardMap) (s : ShardMapState) → Reach zero_shard_map sm → Ends sm s
update_of_Reach sm s r = update_of_Inv sm s (Reach-Inv Inv-zero_shard_map r)
