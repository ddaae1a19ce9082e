-- ===== src/Common/Floats.antt =====
-- Floating-point numbers, of which the program compares and subtracts: the operations of the
-- platform, so what is shown holds of every interpretation.
use mathlib.Core.Bool.{Bool}

pub record Floats : Type 1 where
  pub Float : Type 0
  pub float_le : Float → Float → Bool
  pub float_lt : Float → Float → Bool
  pub float_sub : Float → Float → Float
