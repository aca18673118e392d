-- ===== src/Geometry.antt =====
-- common/geometry/geometry.go. Go's float64 is a parameter: any type with an instance of `Float64`,
-- the operations that the program calls on it. `lit n d` is the constant nearest to n / d.
use vda.Prelude.{ℕ, Bool, ◌&&◌, if◌then◌else◌}
use vda.Prelude.Text.{String}

pub record Float64 (F : Type 0) : Type 0 where
  pub lit : ℕ → ℕ → F
  pub add : F → F → F
  pub sub : F → F → F
  pub mul : F → F → F
  pub div : F → F → F
  pub neg : F → F
  pub le : F → F → Bool
  pub eq : F → F → Bool
  pub hypot : F → F → F
  pub cos : F → F
  pub sin : F → F
  pub atan2 : F → F → F

pub record Position (F : Type 0) : Type 0 where
  pub x : F
  pub y : F
  pub theta : F

pub record AllowedDeviationXy (F : Type 0) : Type 0 where
  pub a : F
  pub b : F
  pub theta : F

-- The embedded `Position` is the field `position`, and its fields are those of the node's position.
pub record NodePosition (F : Type 0) : Type 0 where
  pub position : Position F
  pub open position use *
  pub map_id : String
  pub allowed_deviation_xy : AllowedDeviationXy F
  pub allowed_deviation_theta : F

module _ {F : Type 0} ⦃fl : Float64 F⦄ where
  open fl use {lit, add, sub, mul, div, neg, le, eq, hypot, cos, sin}

  -- The rotated frame of the ellipse, and its equation.
  inside_ellipse : AllowedDeviationXy F → F → F → Bool
  inside_ellipse dev dx dy =
      let c = cos dev.theta in
      let s = sin dev.theta in
      let rx = add (mul dx c) (mul dy s) in
      let ry = add (mul (neg dx) s) (mul dy c) in
      le (add (div (mul rx rx) (mul dev.a dev.a)) (div (mul ry ry) (mul dev.b dev.b))) (lit 1 1)

  unfoldable pub inside_deviation_ellipse : Position F → NodePosition F → Bool
  unfolding inside_ellipse
  inside_deviation_ellipse p node =
      let dev = node.allowed_deviation_xy in
      let dx = sub p.x node.x in
      let dy = sub p.y node.y in
      if eq dev.a (lit 0 1) && eq dev.b (lit 0 1)
      then le (hypot dx dy) (lit 1 100)
      else inside_ellipse dev dx dy
