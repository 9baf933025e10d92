-- ===== src/Status.antt =====
-- The statuses that the handlers of lab1 answer with, and their gRPC codes.
use cs426_spring2022_labs.Common.{ℕ, ℤ}

pub data Code : Type 0 where
  internal invalid_argument not_found_code unimplemented_code : Code

-- A status, with the number that its message names.
pub data Status : Type 0 where
  injected empty_batch duplicate_ids unimplemented : Status
  batch_too_large : ℤ → Status
  not_found : ℕ → Status

unfoldable pub code : Status → Code
code injected = Code.internal
code (not_found id) = Code.not_found_code
code unimplemented = Code.unimplemented_code
code _ = Code.invalid_argument

-- What a handler returns.
pub data Response {ℓ} (A : Type ℓ) : Type ℓ where
  ok : A → Response A
  error : Status → Response A
