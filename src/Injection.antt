-- ===== src/Injection.antt =====
-- lab1/failure_injection/failure_injection.go. The configuration is a global pointer, read and
-- replaced atomically; a client may store a nil one. The results of `rand.Int63n` are arguments.
use cs426_spring2022_labs.Common.{
  ℕ, ◌≡◌, Bool, false, Option, none, some, ℤ, pos, negsuc, Outcome, returns, panics, blocks, ◌>>=◌,
  if◌then◌else◌, ◌==◌, arith,
}

pub record InjectionConfig : Type 0 where
  pub sleep_ns : ℤ
  pub failure_rate : ℤ
  pub response_omission_rate : ℤ

-- `none` is the nil pointer.
abbrev pub Config : Type 0
Config = Option InjectionConfig

-- `SetInjectionConfig`, which stores a new configuration.
unfoldable pub set_injection_config : ℤ → ℤ → ℤ → Config
set_injection_config sleep_ns failure_rate response_omission_rate = some (record {
  sleep_ns = sleep_ns;
  failure_rate = failure_rate;
  response_omission_rate = response_omission_rate;
})

unfoldable pub clear_injection_config : Config
unfolding set_injection_config
clear_injection_config = set_injection_config (pos 0) (pos 0) (pos 0)

-- `rand.Int63n` panics on a negative bound.
unfoldable pub one_in : ℤ → (draw : ℕ) → Outcome Bool
one_in (negsuc n) draw = panics
one_in (pos n) draw = if n == 0 then returns false else returns (draw == 0)

pub record Draws : Type 0 where
  pub failure : ℕ
  pub omission : ℕ

unfoldable pub maybe_inject : Config → Draws → Outcome Bool
unfolding one_in
maybe_inject none draws = panics
maybe_inject (some config) draws = do
  should_error ← one_in config.failure_rate draws.failure
  should_omit_response ← one_in config.response_omission_rate draws.omission
  if should_omit_response then blocks else returns should_error

-- With both rates at 0, as after `ClearInjectionConfig`, no request fails or hangs, whatever is drawn.
pub maybe_inject_off :
    (config : InjectionConfig) (draws : Draws)
    → config.failure_rate ≡ pos 0
    → config.response_omission_rate ≡ pos 0
    → maybe_inject (some config) draws ≡ returns false
unfolding maybe_inject
maybe_inject_off config draws f o = ground arith

-- With rates that are not negative, a request hangs exactly if the omission rate is positive and its
-- draw is 0; otherwise it is told to fail exactly if the failure rate is positive and its draw is 0.
pub maybe_inject_exact :
    (sleep_ns : ℤ) (f o : ℕ) (draws : Draws)
    → maybe_inject (set_injection_config sleep_ns (pos f) (pos o)) draws ≡ (
        if (if o == 0 then false else draws.omission == 0)
        then blocks
        else returns (if f == 0 then false else draws.failure == 0))
unfolding maybe_inject set_injection_config
maybe_inject_exact sleep_ns f o draws = ground arith
