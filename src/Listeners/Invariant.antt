-- ===== src/Listeners/Invariant.antt =====
-- The well-formed states of a shard map with listeners, lab4/kv/shardmap.go, and its methods on them.
use cs426_spring2022_labs.Common.{
  arith, ◌∙◌, ℕ, suc, ◌<◌, ◌≡◌, refl, sym, ap, subst, ◌⊎◌, inl, inr, Bool-cases, true, false, some,
  List, [], ◌∷◌, map, returns, blocks, Heap, write, write_self, write_ne, All, In, Distinct,
  nat_key,
}
use cs426_spring2022_labs.Common.GoMap.{GoMap, Unique}
use cs426_spring2022_labs.ShardMap.{ShardMapState}
use cs426_spring2022_labs.Listeners.{Chan, ShardMap, zero_shard_map, entries, notify, update}

abbrev pub chans_of : GoMap ℕ ℕ → List ℕ
chans_of = map (λ e. e.1)

abbrev pub IsOpen : Heap Chan → ℕ × ℕ → Type 0
IsOpen chans e = (chans e.1).closed ≡ false

-- Somebody goes on receiving what is sent on the channel of the entry.
abbrev pub IsReceiving : Heap Chan → ℕ × ℕ → Type 0
IsReceiving chans e = (chans e.1).receiving ≡ true

pub record Inv (sm : ShardMap) : Type 0 where
  pub ids_below : All (λ e. e.0 < sm.update_channel_counter) (entries sm.update_channels)
  pub chans_below : All (λ e. e.1 < sm.next_channel) (entries sm.update_channels)
  pub ids_distinct : Unique (entries sm.update_channels)
  pub chans_distinct : Distinct (chans_of (entries sm.update_channels))
  pub all_open : All (IsOpen sm.channels) (entries sm.update_channels)

pub Inv-zero_shard_map : Inv zero_shard_map
Inv-zero_shard_map = record {
  ids_below = tt;
  chans_below = tt;
  ids_distinct = tt;
  chans_distinct = tt;
  all_open = tt;
}

abbrev notified : Chan → Chan
notified c = record c { received = suc c.received }

-- A write to another channel changes nothing of these.
pub All-write :
    (P : Chan → Type 0) (chans : Heap Chan) (ch : ℕ) (c : Chan) (m : GoMap ℕ ℕ)
    → ¬ In ch (chans_of m)
    → All (λ e. P (chans e.1)) m
    → All (λ e. P (write chans ch c e.1)) m
All-write P chans ch c [] h o = tt
All-write P chans ch c (e ∷ m) h (p, o) = (
  subst P (sym (write_ne chans ch c e.1 (λ q. h (inl (sym q))))) p,
  All-write P chans ch c m (λ i. h (inr i)) o,
)

-- What the loop of `Update` does to the channels.
pub record Notifies (m : GoMap ℕ ℕ) (before after : Heap Chan) : Type 0 where
  pub one_more : (ch : ℕ) → In ch (chans_of m) → after ch ≡ notified (before ch)
  pub others : (ch : ℕ) → ¬ In ch (chans_of m) → after ch ≡ before ch

pub In-chans : (m : GoMap ℕ ℕ) (e : ℕ × ℕ) → In e m → In e.1 (chans_of m)
In-chans [] e h = absurd h.0
In-chans (x ∷ m) e (inl p) = inl (ap (λ q. q.1) p)
In-chans (x ∷ m) e (inr h) = inr (In-chans m e h)

notify_cons :
    (id ch : ℕ) (m : GoMap ℕ ℕ) (chans : Heap Chan)
    → (chans ch).closed ≡ false
    → (chans ch).receiving ≡ true
    → notify ((id, ch) ∷ m) chans ≡ notify m (write chans ch (notified (chans ch)))
unfolding notify
notify_cons id ch m chans o r = ground arith

notify_lem :
    (m : GoMap ℕ ℕ) (chans : Heap Chan)
    → All (IsOpen chans) m
    → All (IsReceiving chans) m
    → Distinct (chans_of m)
    → (after : Heap Chan) × (notify m chans ≡ returns after) × Notifies m chans after
unfolding notify
notify_lem [] chans o rs d =
    (chans, refl, record { one_more = λ ch i. absurd i.0; others = λ ch h. refl })
notify_lem ((id, ch) ∷ m) chans (o, os) (r, rs) (d, ds) =
    let c : Chan = notified (chans ch) in
    let (after, e, n) =
      notify_lem m (write chans ch c) (All-write (λ x. x.closed ≡ false) chans ch c m d os)
        (All-write (λ x. x.receiving ≡ true) chans ch c m d rs) ds in
    (
      after,
      notify_cons id ch m chans o r ∙ e,
      record {
        one_more = λ x i. elim i [
          | inl p ↦ rw (p, n.others ch d) (write_self chans ch c)
          | inr j ↦ n.one_more x j ∙ ap notified (write_ne chans ch c x (λ p. d (rw p at j)))
        ];
        others = λ x h. n.others x (λ j. h (inr j)) ∙ write_ne chans ch c x (λ p. h (inl p));
      },
    )

-- What is kept of a channel by a notification is kept of all of them.
All-notified :
    (P : Chan → Type 0) (before after : Heap Chan) (m rest : GoMap ℕ ℕ)
    → ((c : Chan) → P c → P (notified c))
    → Notifies m before after
    → ((e : ℕ × ℕ) → In e rest → In e.1 (chans_of m))
    → All (λ e. P (before e.1)) rest
    → All (λ e. P (after e.1)) rest
All-notified P before after m [] keeps n h o = tt
All-notified P before after m (e ∷ rest) keeps n h (p, o) = (
  subst P (sym (n.one_more e.1 (h e (inl refl)))) (keeps (before e.1) p),
  All-notified P before after m rest keeps n (λ x i. h x (inr i)) o,
)

-- The loop blocks if nobody goes on receiving from one of the channels.
pub notify_blocks :
    (m : GoMap ℕ ℕ) (chans : Heap Chan)
    → All (IsOpen chans) m
    → Distinct (chans_of m)
    → (e : ℕ × ℕ) → In e m
    → (chans e.1).receiving ≡ false
    → notify m chans ≡ blocks
unfolding notify
notify_blocks [] chans o d e i h = absurd i.0
notify_blocks ((id, ch) ∷ m) chans (o, os) (d, ds) e i h =
    let c : Chan = notified (chans ch) in
    elim (Bool-cases (chans ch).receiving) [
      | inl on ↦ elim i [
        | inl p ↦ absurd (cc (on, h, ap (λ (q : ℕ × ℕ). (chans q.1).receiving) p))
        | inr j ↦
            notify_cons id ch m chans o on
            ∙ notify_blocks m (write chans ch c)
                (All-write (λ x. x.closed ≡ false) chans ch c m d os) ds e j
                (rw (write_ne chans ch c e.1 (λ q. d (rw q at (In-chans m e j)))) h)
      ]
      | inr off ↦ ground arith
    ]

-- All of the channels are received from, or one is not.
pub IsReceiving-cases :
    (chans : Heap Chan) (m : GoMap ℕ ℕ)
    → All (IsReceiving chans) m ⊎ ((e : ℕ × ℕ) × In e m × ((chans e.1).receiving ≡ false))
IsReceiving-cases chans [] = inl tt
IsReceiving-cases chans (e ∷ m) = elim (Bool-cases (chans e.1).receiving) [
  | inr off ↦ inr (e, inl refl, off)
  | inl on ↦ elim (IsReceiving-cases chans m) [
    | inl all ↦ inl (on, all)
    | inr (x, i, off) ↦ inr (x, inr i, off)
  ]
]

-- If somebody goes on receiving for each registered listener of a well-formed state, `Update` returns.
-- It stores the new state, each registered listener gets
-- one notification more, no other channel changes, and the new state is well formed.
pub update_lem :
    (sm : ShardMap) (s : ShardMapState)
    → Inv sm
    → All (IsReceiving sm.channels) (entries sm.update_channels)
    → (sm' : ShardMap) × (update sm s ≡ returns sm')
      × Inv sm'
      × (sm'.state ≡ some s)
      × (sm'.update_channels ≡ sm.update_channels)
      × (sm'.next_channel ≡ sm.next_channel)
      × Notifies (entries sm.update_channels) sm.channels sm'.channels
unfolding update
update_lem sm s v rs =
    let m : GoMap ℕ ℕ = entries sm.update_channels in
    let (after, e, n) = notify_lem m sm.channels v.all_open rs v.chans_distinct in
    (
      record sm { state = some s; channels = after },
      rw e,
      record {
        ids_below = v.ids_below;
        chans_below = v.chans_below;
        ids_distinct = v.ids_distinct;
        chans_distinct = v.chans_distinct;
        all_open =
            All-notified (λ c. c.closed ≡ false) sm.channels after m m (λ c h. h) n (In-chans m)
              v.all_open;
      },
      refl,
      refl,
      refl,
      n,
    )

pub update_blocks :
    (sm : ShardMap) (s : ShardMapState)
    → Inv sm
    → (e : ℕ × ℕ) → In e (entries sm.update_channels)
    → (sm.channels e.1).receiving ≡ false
    → update sm s ≡ blocks
unfolding update
update_blocks sm s v e i off =
    rw (notify_blocks (entries sm.update_channels) sm.channels v.all_open v.chans_distinct e i off)
      refl

-- Who goes on receiving does so after the notifications.
pub IsReceiving-Notifies :
    (m : GoMap ℕ ℕ) (before after : Heap Chan)
    → Notifies m before after
    → All (IsReceiving before) m
    → All (IsReceiving after) m
IsReceiving-Notifies m before after n =
    All-notified (λ c. c.receiving ≡ true) before after m m (λ c h. h) n (In-chans m)
