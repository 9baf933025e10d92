-- ===== src/Raft/Connections.antt =====
-- lab2/raft/config.go: how the test harness attaches servers to the network and detaches them. `E` is
-- the type of end names, which the source draws at random.
pub mod Loops
pub mod Attached
use cs426_spring2022_labs.Common.{
  ℕ, zero, suc, Bool, true, false, Option, none, some, List, [], ◌∷◌, ◌++◌, Outcome, returns,
  panics, ◌>>=◌, if◌then◌else◌, Heap, write, Key, nat_key,
}
use cs426_spring2022_labs.Rpc.Network.{Network, enable}

-- The fields of `config` that are concerned. `endnames` holds `none` for a nil slice.
pub record Config (E : Type 0) : Type 0 where
  pub n : ℕ
  pub connected : Heap Bool
  pub endnames : Heap (Option (ℕ → E))
  pub net : Network E ℕ

-- The numbers below a bound, in the order of a `for` loop.
abbrev pub upto : ℕ → List ℕ
upto zero = []
upto (suc n) = upto n ++ n ∷ []

abbrev pub at_index : {E : Type 0} → Option (ℕ → E) → ℕ → Option E
at_index none j = none
at_index (some names) j = some (names j)

abbrev pub is_made : {A : Type 0} → Option A → Bool
is_made none = false
is_made (some names) = true

module _ {E : Type 0} ⦃end_key : Key E⦄ where
  -- One turn of a loop: under its test the end is enabled or disabled; an index into a nil slice panics.
  unfoldable pub enable_one :
      (tested : Bool) → (endname : Option E) → Bool → Network E ℕ → Outcome (Network E ℕ)
  enable_one false endname enabled net = returns net
  enable_one true none enabled net = panics
  enable_one true (some endname) enabled net = returns (enable net endname enabled)

  unfoldable pub enable_each :
      (test : ℕ → Bool)
      → (endname : ℕ → Option E) → Bool
      → List ℕ
      → Network E ℕ
      → Outcome (Network E ℕ)
  unfolding enable_one
  enable_each test endname enabled [] net = returns net
  enable_each test endname enabled (j ∷ js) net =
      enable_one (test j) (endname j) enabled net >>= λ next.
      enable_each test endname enabled js next

  unfoldable pub connect : Config E → ℕ → Outcome (Config E)
  unfolding enable_each
  connect cfg i =
      let connected = write cfg.connected i true in
      do
        net ← enable_each connected (at_index (cfg.endnames i)) true (upto cfg.n) cfg.net
        net' ← enable_each connected (λ j. at_index (cfg.endnames j) i) true (upto cfg.n) net
        returns (record cfg { connected = connected; net = net' })

  unfoldable pub disconnect : Config E → ℕ → Outcome (Config E)
  unfolding enable_each
  disconnect cfg i = do
    net ←
        enable_each (λ j. is_made (cfg.endnames i)) (at_index (cfg.endnames i)) false (upto cfg.n)
          cfg.net
    net' ←
        enable_each (λ j. is_made (cfg.endnames j)) (λ j. at_index (cfg.endnames j) i) false
          (upto cfg.n) net
    returns (record cfg { connected = write cfg.connected i false; net = net' })
