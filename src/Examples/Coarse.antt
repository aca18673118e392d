-- ===== src/Examples/Coarse.antt =====
-- Whole numbers in place of float64, for running the model.
use vda.Prelude.{ℕ, ◌+◌, ◌-◌, ◌*◌, ◌/◌, leb, ◌==◌}
use vda.Geometry.{Float64, Position}

instance abbrev pub coarse : Float64 ℕ
coarse = record {
  lit = λ n d. n / d;
  add = λ a b. a + b;
  sub = λ a b. (a - b) + (b - a);
  mul = λ a b. a * b;
  div = λ a b. a / b;
  neg = λ a. a;
  le = leb;
  eq = λ a b. a == b;
  hypot = λ a b. a + b;
  cos = λ a. 1;
  sin = λ a. 0;
  atan2 = λ a b. 0;
}

abbrev pub origin : Position ℕ
origin = record { x = 0; y = 0; theta = 0 }
