-- ===== src/Listeners/Methods.antt =====
-- `MakeListener` and `Close` of lab4/kv/shardmap.go on well-formed states.
use cs426_spring2022_labs.Common.{
  ℕ, suc, ◌<◌, ◌≡◌, ◌≢◌, ap, inl, inr, true, false, none, refl, write_ne, some, [], ◌∷◌, ◌++◌, map,
  returns, Heap, write, write_self, arith, All, In, Distinct, All-In, All-append, All-mono,
  Distinct-snoc, nat_key,
}
use cs426_spring2022_labs.Common.GoMap.{
  GoMap, get, delete, keys, Unique, insert_new, get-insert, get-delete, In-map-delete, All-delete,
  delete-Distinct, not-In-map-delete, In-of_get,
}
use cs426_spring2022_labs.Listeners.{
  Chan, ShardMap, ShardMapListener, open_chan, entries, make_listener, close,
}
use cs426_spring2022_labs.Listeners.Invariant.{chans_of, IsOpen, All-write, Inv}
use mathlib.Core.List.{map-append}

pub not-In_below : (f : ℕ × ℕ → ℕ) (m : GoMap ℕ ℕ) (n : ℕ) → All (λ e. f e < n) m → ¬ In n (map f m)
not-In_below f [] n h i = i.0
not-In_below f (e ∷ m) n h (inl p) = omega arith
not-In_below f (e ∷ m) n h (inr i) = not-In_below f m n h.1 i

map-Distinct-snoc :
    (f : ℕ × ℕ → ℕ) (m : GoMap ℕ ℕ) (e : ℕ × ℕ)
    → Distinct (map f m)
    → ¬ In (f e) (map f m)
    → Distinct (map f (m ++ e ∷ []))
map-Distinct-snoc f m e d h = rw map-append (Distinct-snoc (f e) (map f m) d h)

-- A new listener is registered under an id and on a channel that no listener has, which is open;
-- the listeners registered before stay so, and the new state is well formed.
pub make_listener_lem :
    (sm : ShardMap)
    → Inv sm
    → let (sm', l) = make_listener sm in
      Inv sm'
      × (get (entries sm'.update_channels) l.id ≡ some l.ch)
      × (¬ In l.ch (chans_of (entries sm.update_channels)))
      × (sm'.channels l.ch ≡ open_chan)
      × ((id : ℕ)
          → id ≢ l.id
          → get (entries sm'.update_channels) id ≡ get (entries sm.update_channels) id)
unfolding make_listener
make_listener_lem sm v =
    let m : GoMap ℕ ℕ = entries sm.update_channels in
    let id : ℕ = sm.update_channel_counter in
    let ch : ℕ = sm.next_channel in
    let new_id : ¬ In id (keys m) = not-In_below (λ e. e.0) m id v.ids_below in
    let new_ch : ¬ In ch (chans_of m) = not-In_below (λ e. e.1) m ch v.chans_below in
    (
      rw (insert_new m id ch new_id) (record {
        ids_below =
            All-append (λ e. e.0 < suc id) m ((id, ch) ∷ [])
              (All-mono (λ e. e.0 < id) (λ e. e.0 < suc id) m (λ e h. omega arith) v.ids_below)
              (omega arith);
        chans_below =
            All-append (λ e. e.1 < suc ch) m ((id, ch) ∷ [])
              (All-mono (λ e. e.1 < ch) (λ e. e.1 < suc ch) m (λ e h. omega arith) v.chans_below)
              (omega arith);
        ids_distinct = map-Distinct-snoc (λ e. e.0) m (id, ch) v.ids_distinct new_id;
        chans_distinct = map-Distinct-snoc (λ e. e.1) m (id, ch) v.chans_distinct new_ch;
        all_open =
            All-append (IsOpen (write sm.channels ch open_chan)) m ((id, ch) ∷ [])
              (All-write (λ c. c.closed ≡ false) sm.channels ch open_chan m new_ch v.all_open)
              (ap (λ c. c.closed) (write_self sm.channels ch open_chan), tt);
      }),
      ground (arith, get-insert m id id ch),
      new_ch,
      write_self sm.channels ch open_chan,
      λ j ne. ground (arith, get-insert m id j ch),
    )

-- The state that `Close` leaves.
pub record Closes (l : ShardMapListener) (sm sm' : ShardMap) : Type 0 where
  pub valid : Inv sm'
  pub unregistered : get (entries sm'.update_channels) l.id ≡ none
  pub not_notified : ¬ In l.ch (chans_of (entries sm'.update_channels))
  pub closed : (sm'.channels l.ch).closed ≡ true
  pub others :
      (id : ℕ)
      → id ≢ l.id
      → get (entries sm'.update_channels) id ≡ get (entries sm.update_channels) id
  pub fewer :
      (ch : ℕ)
      → In ch (chans_of (entries sm'.update_channels))
      → In ch (chans_of (entries sm.update_channels))
  pub none_made : sm'.next_channel ≡ sm.next_channel
  pub none_received : (ch : ℕ) → (sm'.channels ch).received ≡ (sm.channels ch).received
  pub other_channels : (ch : ℕ) → ch ≢ l.ch → sm'.channels ch ≡ sm.channels ch

received_kept :
    (chans : Heap Chan) (ch x : ℕ)
    → (write chans ch (record (chans ch) { closed = true }) x).received ≡ (chans x).received
unfolding write
received_kept chans ch x = ground arith

pub close_map :
    (sm : ShardMap) (l : ShardMapListener) (m : GoMap ℕ ℕ)
    → sm.update_channels ≡ some m
    → Inv sm
    → get m l.id ≡ some l.ch
    → (sm' : ShardMap) × (close l sm ≡ returns sm') × Closes l sm sm'
unfolding close
close_map sm l m q v g =
    let ids : All (λ e. e.0 < sm.update_channel_counter) m = rw q at v.ids_below in
    let below : All (λ e. e.1 < sm.next_channel) m = rw q at v.chans_below in
    let unique : Unique m = rw q at v.ids_distinct in
    let distinct : Distinct (chans_of m) = rw q at v.chans_distinct in
    let opened : All (IsOpen sm.channels) m = rw q at v.all_open in
    let c : Chan = record (sm.channels l.ch) { closed = true } in
    let gone = not-In-map-delete (λ e. e.1) m l.id l.ch distinct g in
    let here : IsOpen sm.channels (l.id, l.ch) =
      All-In (IsOpen sm.channels) (l.id, l.ch) m opened (In-of_get m l.id l.ch g) in
    (
      record sm { update_channels = some (delete m l.id); channels = write sm.channels l.ch c },
      rw (here, close, q),
      record {
        valid = record {
          ids_below = All-delete (λ e. e.0 < sm.update_channel_counter) m l.id ids;
          chans_below = All-delete (λ e. e.1 < sm.next_channel) m l.id below;
          ids_distinct = delete-Distinct (λ e. e.0) m l.id unique;
          chans_distinct = delete-Distinct (λ e. e.1) m l.id distinct;
          all_open =
              All-write (λ c. c.closed ≡ false) sm.channels l.ch c (delete m l.id) gone
                (All-delete (IsOpen sm.channels) m l.id opened);
        };
        unregistered = ground (arith, get-delete m l.id l.id unique);
        not_notified = gone;
        closed = ap (λ x. x.closed) (write_self sm.channels l.ch c);
        others = λ j ne. ground (arith, get-delete m l.id j unique, q);
        fewer = λ ch i. rw q (In-map-delete (λ e. e.1) m l.id ch i);
        none_made = refl;
        none_received = received_kept sm.channels l.ch;
        other_channels = λ ch ne. write_ne sm.channels l.ch c ch ne;
      },
    )
