-- ===== src/Sim.antt =====
-- sim/kinematics.go: the simulated drive along the chain of nodes and edges. The mutex makes each
-- method one step. `none` is a panic: an index outside of a slice.
use mathlib.Core.Option
use vda.Prelude.{
  ℕ, suc, Bool, true, false, ◌&&◌, Option, none, some, List, head?, get_elem?, length, ltb,
  if◌then◌else◌, ◌>>=◌,
}
use vda.Prelude.Text.{String}
use vda.Geometry.{Float64, Position, NodePosition, inside_deviation_ellipse}
use vda.Models.Order.{Node, Edge}

-- `wake` says whether the channel of capacity one is full. The gate, a closure over the robot, is an
-- argument of the tick.
pub record Simulator (F : Type 0) : Type 0 where
  pub nodes : List (Node F)
  pub edges : List (Edge F)
  pub edge_idx : ℕ
  pub position : Position F
  pub wake : Bool

module _ {F : Type 0} where
  abbrev pub place_of : NodePosition F → Position F
  place_of p = record { x = p.x; y = p.y; theta = p.theta }

  unfoldable pub new_simulator : List (Node F) → List (Edge F) → Option (Simulator F)
  new_simulator nodes edges =
      Option.map
        (λ first. record {
          nodes = nodes;
          edges = edges;
          edge_idx = 0;
          position = place_of first.node_position;
          wake = false;
        })
        (head? nodes)

  unfoldable pub extend : Simulator F → List (Node F) → List (Edge F) → Simulator F
  extend s nodes edges = record s { nodes = nodes; edges = edges; wake = true }

  abbrev edge_released : Option (Edge F) → Bool
  edge_released none = false
  edge_released (some e) = e.released

  -- The length is tested first, so the index is in range.
  unfoldable pub can_drive : Simulator F → Bool
  can_drive s = ltb s.edge_idx (length s.edges) && edge_released (get_elem? s.edges s.edge_idx)

  unfoldable pub driving : Simulator F → Bool
  unfolding can_drive
  driving s = can_drive s

module _ {F : Type 0} ⦃fl : Float64 F⦄ where
  open fl use {lit, add, sub, mul, div, le, hypot, atan2}

  -- The last part of `step`: towards the target, by at most the distance of one tick.
  move : Simulator F → Edge F → Node F → Simulator F
  move s edge target =
      let p = s.position in
      let goal = target.node_position in
      let dx = sub goal.x p.x in
      let dy = sub goal.y p.y in
      let dist = hypot dx dy in
      let reach = mul edge.maximum_speed (lit 1 10) in
      let theta' = atan2 dy dx in
      if le dist reach
      then record s { position = record { x = goal.x; y = goal.y; theta = theta' } }
      else record s {
        position = record {
          x = add p.x (mul (div dx dist) reach);
          y = add p.y (mul (div dy dist) reach);
          theta = theta';
        };
      }

  -- One tick of the drive, with the id of the node at which the robot arrives, or "".
  unfoldable pub step : Simulator F → Option (Simulator F × String)
  unfolding move
  step s = get_elem? s.edges s.edge_idx >>= λ edge. get_elem? s.nodes (suc s.edge_idx) >>= λ target.
      if inside_deviation_ellipse s.position target.node_position
      then some (
        record s { position = place_of target.node_position; edge_idx = suc s.edge_idx },
        target.node_id,
      )
      else some (move s edge target, "")
