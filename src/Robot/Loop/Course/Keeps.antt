-- ===== src/Robot/Loop/Course/Keeps.antt =====
-- Runs of the drive's loop with orders, ticks of the action engine and instant actions in between.
use vda.Prelude.{ℕ, ◌≡◌, ◌≢◌, inl, true, some, List, ◌∷◌}
use vda.Geometry.{Float64}
use vda.Models.Action.{Action}
use vda.Models.Order.{Node, Order}
use vda.Models.State.{ActionState}
use vda.Validation.{sequence_of}
use vda.Validation.Sorting.{Sequence, of_node, sort_slice}
use vda.Robot.ActionEngine.{Moment}
use vda.Robot.Main.{Robot, on_order}
use vda.Robot.InstantActions.{apply_instant_action}
use vda.Robot.State.{engine_tick}
use vda.Robot.Loop.{Machine, go_on, IsFresh}
use vda.Robot.Loop.Course.{OnCourse, engine_tick-Alike, instant-Alike, on_order-OnCourse}
use vda.Robot.Loop.Course.Rounds.{go_on-Steady, go_on_returns}
use vda.Robot.Loop.Course.Serves.{Serves, Steady, Alike-Steady}

module _ {F : Type 0} where
  -- An order with an id that lists its lowest node first, which is released.
  pub record IsProper (o : Order F) : Type 0 where
    pub first : Node F
    pub rest : List (Node F)
    pub tail : List (Sequence F)
    pub named : o.order_id ≢ ""
    pub lists : o.nodes ≡ first ∷ rest
    pub sorted : sort_slice (sequence_of o.nodes o.edges) ≡ of_node first ∷ tail
    pub base : first.released ≡ true

module _ {F : Type 0} ⦃fl : Float64 F⦄ where
  -- Runs in which each order is proper, no instant action is a cancelOrder, and an order that comes in the
  -- middle of a round leaves what the rest of the round relies on.
  pub data Course (y : Machine F) : Machine F → Type 0 where
    begin : Course y y
    move : {z w : Machine F} → Course y z → go_on z ≡ some w → Course y w
    ordered :
        {z : Machine F} {r : Robot F} (o : Order F)
        → Course y z
        → IsProper o
        → on_order z.robot o ≡ some r
        → Serves r z.pc
        → Course y (record z { robot = r })
    ticked :
        {z : Machine F} (at : ℕ → Moment) (last : List ActionState)
        → Course y z
        → Course y (record z { robot = (engine_tick at z.robot last).0 })
    instructed :
        {z : Machine F} (now : ℕ) (a : Action)
        → Course y z
        → a.action_type ≢ "cancelOrder"
        → Course y (record z { robot = apply_instant_action now z.robot a })

  Course-Steady :
      (y z : Machine F) → IsFresh y → y.robot.state.order_id ≡ "" → Course y z → Steady z.robot z.pc
  Course-Steady y _ (rests, pc) i begin = record { course = inl (rests, i); serves = rw pc tt }
  Course-Steady y w f i (move {z = z} run s) = go_on-Steady z w (Course-Steady y z f i run) s
  Course-Steady y _ f i (ordered {z = z} {r = r} o run p t serves) = record {
    course =
        on_order-OnCourse z.robot r o p.first p.rest p.tail (Course-Steady y z f i run).course
          p.named p.lists p.sorted p.base t;
    serves = serves;
  }
  Course-Steady y _ f i (ticked {z = z} at last run) =
      Alike-Steady z.robot (engine_tick at z.robot last).0 z.pc (engine_tick-Alike at z.robot last)
        (Course-Steady y z f i run)
  Course-Steady y _ f i (instructed {z = z} now a run other) =
      Alike-Steady z.robot (apply_instant_action now z.robot a) z.pc
        (instant-Alike now z.robot a other) (Course-Steady y z f i run)

  -- From a robot at rest without an order, in every run of the drive's loop with orders, ticks of the action
  -- engine and instant actions in between: the robot has no order and no drive, or the order state is sound
  -- and the drive's chain is its graph; and the loop does not panic. Each order has an id and lists its
  -- lowest node first, which is released; no instant action is a cancelOrder; an order that comes in the
  -- middle of a round leaves an edge at the drive's index, or the node at which the drive has arrived.
  pub drive-OnCourse :
      (y z : Machine F)
      → IsFresh y
      → y.robot.state.order_id ≡ ""
      → Course y z
      → OnCourse z.robot × ((w : Machine F) × (go_on z ≡ some w))
  drive-OnCourse y z f i run = let h = Course-Steady y z f i run in (h.course, go_on_returns z h)
