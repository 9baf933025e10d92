-- ===== src/Random/Tests.antt =====
-- A concrete source of numbers and texts, for the runs of the services.
use cs426_spring2022_labs.Common.{ℕ, suc, ◌%◌, pos, negsuc, arith}
use cs426_spring2022_labs.Random.{Source, IsRandom}

abbrev pub counter : Source ℕ
counter = record {
  seed = λ z. elim z [ pos n ↦ n | negsuc n ↦ n ];
  intn = λ r n. (suc r, r % n);
  text = λ name r. (suc r, name);
  sprintf_d = λ format n. format;
}

pub counter-IsRandom : IsRandom counter
counter-IsRandom = record { intn_below = λ r n p. grind arith }
