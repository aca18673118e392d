-- ===== src/Delivery/Cancelled.antt =====
-- A robot that was told to cancel the dispatcher's order, of which the dispatcher is not told.
use vda.Prelude.{ℕ, ◌≤◌, length, ◌≡◌, refl, true, none, some, arith, ap, ◌∙◌, sym, inl, inr}
use vda.Prelude.Text.{eq_iff}
use vda.Geometry.{Float64, Position}
use vda.Models.Action.{Action}
use vda.Models.Order.{Order}
use vda.Robot.AcceptOrder.Decision.{Accepts, Accepts-iff}
use vda.Robot.Main.{Robot, on_order, position}
use vda.Robot.InstantActions.{apply_instant_action, cancel_order}
use vda.Fleet.Dispatcher.{Dispatcher, extend_if_needed}
use vda.Fleet.Dispatcher.Plan.{Plan, Progress, Represents, send_next, at_most}
use vda.Fleet.Dispatcher.Windows.{IsWindow, window_lem}
use vda.Delivery.{System, Step, request, quiet, arrive, work, instant}
use vda.Delivery.InStep.{order_part, on_tick-order_part, engine_tick-order_part, instant-order_part}
use vda.Delivery.Accepted.{refused-same}
use vda.Delivery.Synced.{next_window, request-sends, sends-window, IsSynced}

module _ {F : Type 0} ⦃fl : Float64 F⦄ where
  -- The dispatcher stands somewhere on the plan, and the robot has cancelled its order.
  pub record IsCancelled (p : Plan F) (y : System F) : Type 0 where
    pub progress : Progress
    pub stands : Represents p progress y.dispatcher
    pub same_id : y.robot.state.order_id ≡ p.order_id
    pub cancelled : y.robot.state.cancelled ≡ true

  -- Any step, now with cancelOrder.
  pub data AnyStep : System F → System F → Type 0 where
    ordinary : {y z : System F} → Step y z → AnyStep y z
    cancel :
        {y : System F} (now : ℕ) (a : Action)
        → a.action_type ≡ "cancelOrder"
        → AnyStep y (record y { robot = apply_instant_action now y.robot a })

  pub data AnyReach (y : System F) : System F → Type 0 where
    here : AnyReach y y
    later : {z w : System F} → AnyReach y z → AnyStep z w → AnyReach y w

  next-IsWindow :
      (p : Plan F) (s : Progress)
      → s.reached ≤ length p.rest
      → IsWindow p s.reached (at_most 3 p s.reached) s.next_update
  next-IsWindow p s within =
      window_lem p s.reached (at_most 3 p s.reached) s.next_update (ground (arith, within))

  IsCancelled-refuses :
      (p : Plan F) (y : System F) (d : Dispatcher F) (o : Order F) (at : Position F)
      → IsCancelled p y
      → extend_if_needed y.dispatcher y.robot.state.order_id ≡ some (d, some o)
      → ¬ Accepts y.robot.state o at
  IsCancelled-refuses p y d o at c e a =
      let is : o ≡ next_window p c.progress =
        sends-window p c.progress y d o c.stands c.same_id e in
      let b = (next-IsWindow p c.progress c.stands.within).base in
      elim ((Accepts-iff y.robot.state o at b.first b.rest (ap (λ q. q.nodes) is ∙ b.nodes_are)).0
        a) [
          | inl new ↦ new.other_id (ap (λ q. q.order_id) is ∙ sym c.same_id)
          | inr update ↦ cc (update.running, c.cancelled)
        ]

  refused_robot :
      (p : Plan F) (y : System F) (d : Dispatcher F) (r : Robot F) (o : Order F)
      → IsCancelled p y
      → extend_if_needed y.dispatcher y.robot.state.order_id ≡ some (d, some o)
      → on_order y.robot o ≡ some r
      → r ≡ y.robot
  refused_robot p y d r o c e t =
      let is : o ≡ next_window p c.progress =
        sends-window p c.progress y d o c.stands c.same_id e in
      let b = (next-IsWindow p c.progress c.stands.within).base in
      refused-same y.robot r o b.first b.rest (ap (λ q. q.nodes) is ∙ b.nodes_are)
        (IsCancelled-refuses p y d o (position y.robot) c e) t

  -- A robot that keeps its order keeps it cancelled.
  IsCancelled-keep :
      (p : Plan F) (y : System F) (r : Robot F)
      → IsCancelled p y
      → order_part r.state ≡ order_part y.robot.state
      → IsCancelled p (record y { robot = r })
  IsCancelled-keep p y r c e = record {
    progress = c.progress;
    stands = c.stands;
    same_id = ap (λ q. q.0) e ∙ c.same_id;
    cancelled = ap (λ q. q.1.1.0) e ∙ c.cancelled;
  }

  cancel-order_id :
      (now : ℕ) (r : Robot F) (a : Action)
      → a.action_type ≡ "cancelOrder"
      → ((apply_instant_action now r a).state.order_id ≡ r.state.order_id)
        × ((apply_instant_action now r a).state.cancelled ≡ true)
  unfolding apply_instant_action cancel_order
  cancel-order_id now r a e =
      let chosen = (eq_iff a.action_type "cancelOrder").1 e in rw chosen (refl, refl)

  pub cancel-IsCancelled :
      (p : Plan F) (s : Progress) (y : System F) (now : ℕ) (a : Action)
      → Represents p s y.dispatcher
      → y.robot.state.order_id ≡ p.order_id
      → a.action_type ≡ "cancelOrder"
      → IsCancelled p (record y { robot = apply_instant_action now y.robot a })
  cancel-IsCancelled p s y now a stands same_id e =
      let (same, done) = cancel-order_id now y.robot a e in
      record { progress = s; stands = stands; same_id = same ∙ same_id; cancelled = done }

  Step-IsCancelled : (p : Plan F) (y z : System F) → IsCancelled p y → Step y z → IsCancelled p z
  Step-IsCancelled p y _ c (request {d = d} {r = r} o e t) =
      let (sent, rep) = request-sends p c.progress y d (some o) c.stands c.same_id e in
      let kept : r ≡ y.robot = refused_robot p y d r o c e t in
      record {
        progress = (send_next p c.progress).0;
        stands = rep;
        same_id = ap (λ q. q.state.order_id) kept ∙ c.same_id;
        cancelled = ap (λ q. q.state.cancelled) kept ∙ c.cancelled;
      }
  Step-IsCancelled p y _ c (quiet {d = d} e) =
      let (sent, rep) = request-sends p c.progress y d none c.stands c.same_id e in
      record {
        progress = (send_next p c.progress).0;
        stands = rep;
        same_id = c.same_id;
        cancelled = c.cancelled;
      }
  Step-IsCancelled p y _ c (arrive id) = IsCancelled-keep p y _ c (on_tick-order_part y.robot id)
  Step-IsCancelled p y _ c (work at last) =
      IsCancelled-keep p y _ c (engine_tick-order_part at y.robot last)
  Step-IsCancelled p y _ c (instant now a other) =
      IsCancelled-keep p y _ c (instant-order_part now y.robot a other)

  AnyReach-IsCancelled :
      (p : Plan F) (y z : System F) → IsCancelled p y → AnyReach y z → IsCancelled p z
  AnyReach-IsCancelled p y _ c here = c
  AnyReach-IsCancelled p y z c (later {z = w} reach (ordinary step)) =
      Step-IsCancelled p w z (AnyReach-IsCancelled p y w c reach) step
  AnyReach-IsCancelled p y _ c (later {z = w} reach (cancel now a e)) =
      let c' = AnyReach-IsCancelled p y w c reach in
      cancel-IsCancelled p c'.progress w now a c'.stands c'.same_id e

  -- From a dispatcher and a robot in step, once a cancelOrder has come, whatever requests, arrivals, ticks
  -- of the engine and instant actions follow, further cancelOrders among them: the robot takes no order
  -- that a request makes the dispatcher send.
  pub cancelled_refuses :
      (p : Plan F) (s : Progress) (y z : System F) (now : ℕ) (a : Action) (d : Dispatcher F)
      (o : Order F) (at : Position F)
      → IsSynced p s y
      → a.action_type ≡ "cancelOrder"
      → AnyReach (record y { robot = apply_instant_action now y.robot a }) z
      → extend_if_needed z.dispatcher z.robot.state.order_id ≡ some (d, some o)
      → ¬ Accepts z.robot.state o at
  cancelled_refuses p s y z now a d o at h e reach sends =
      let c = cancel-IsCancelled p s y now a h.stands h.in_step.same_id e in
      IsCancelled-refuses p z d o at (AnyReach-IsCancelled p _ z c reach) sends
