-- ===== src/Core/Floats.antt =====
-- Go's float64, of which the scheduler uses these operations, as a parameter; and the two functions
-- of the statistics package montanaflynn/stats that it calls.
use dragonfly.Prelude.{ℕ, Bool, List}
use dragonfly.Prelude.Int.{ℤ}

pub record Floats : Type 1 where
  pub Float : Type 0
  pub of_int : ℤ → Float
  pub ratio : ℕ → ℕ → Float
  pub plus : Float → Float → Float
  pub times : Float → Float → Float
  pub divide : Float → Float → Float
  pub below : Float → Float → Bool
  pub equal : Float → Float → Bool
  pub mean : List Float → Float
  pub standard_deviation : List Float → Float
