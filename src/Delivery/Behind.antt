-- ===== src/Delivery/Behind.antt =====
-- A dispatcher that is ahead of the robot: an order did not arrive.
use mathlib.Core.Path.{subst}
use vda.Prelude.{◌<◌, ◌≡◌, some, arith, ap, ◌∙◌, sym, inl, inr}
use vda.Prelude.Text.{String}
use vda.Geometry.{Float64, Position}
use vda.Models.Order.{Order}
use vda.Robot.AcceptOrder.Decision.{Accepts}
use vda.Fleet.Dispatcher.{Dispatcher, extend_if_needed}
use vda.Fleet.Dispatcher.Plan.{send_next, Plan, Progress, Represents, at_most}
use vda.Fleet.Dispatcher.Windows.{IsWindow, window_lem}
use vda.Delivery.{System}
use vda.Delivery.InStep.{InStep}
use vda.Delivery.Accepted.{refused-same}
use vda.Headers.{HeaderGenerator}
use vda.Fleet.Publishing.{Outside, Outcome, PublishError, extend_published}
use vda.Fleet.Publishing.Sent.{extend_published_lem}
use vda.Delivery.Synced.{IsSynced, request-sends, next_window, sends-window}
use vda.Delivery.Lost.{next_refused, send_next-further}
use vda.Delivery.{Step, request, quiet, arrive, work, instant, Reach, here, step_on}
use vda.Delivery.InStep.{on_tick-InStep, engine_tick-InStep, instant-InStep}
use vda.Delivery.Synced.{send_next-stays}
use vda.Robot.Main.{Robot, on_order, position}
use mathlib.Core.Option.{none}

module _ {F : Type 0} ⦃fl : Float64 F⦄ where
  -- The dispatcher stands at one progress on the plan, and the robot holds the order up to an earlier one.
  pub record IsBehind (p : Plan F) (y : System F) : Type 0 where
    pub ahead : Progress
    pub held : Progress
    pub stands : Represents p ahead y.dispatcher
    pub in_step : InStep p held y.robot.state
    pub further : held.reached < ahead.reached

  IsBehind-refuses :
      (p : Plan F) (y : System F) (d : Dispatcher F) (o : Order F) (at : Position F)
      → IsBehind p y
      → extend_if_needed y.dispatcher y.robot.state.order_id ≡ some (d, some o)
      → ¬ Accepts y.robot.state o at
  IsBehind-refuses p y d o at b e =
      next_refused p b.ahead b.held y d o at b.stands b.in_step b.further e

  refused_robot :
      (p : Plan F) (y : System F) (d : Dispatcher F) (r : Robot F) (o : Order F)
      → IsBehind p y
      → extend_if_needed y.dispatcher y.robot.state.order_id ≡ some (d, some o)
      → on_order y.robot o ≡ some r
      → r ≡ y.robot
  refused_robot p y d r o b e t =
      let s = b.ahead in
      let k = at_most 3 p s.reached in
      let within = b.stands.within in
      let w : IsWindow p s.reached k s.next_update =
        window_lem p s.reached k s.next_update (ground (arith, within)) in
      let is : o ≡ next_window p s = sends-window p s y d o b.stands b.in_step.same_id e in
      refused-same y.robot r o w.base.first w.base.rest (ap (λ q. q.nodes) is ∙ w.base.nodes_are)
        (IsBehind-refuses p y d o (position y.robot) b e) t

  -- A robot that keeps what it holds stays behind.
  IsBehind-keep :
      (p : Plan F) (y : System F) (r : Robot F) (b : IsBehind p y)
      → InStep p b.held r.state
      → IsBehind p (record y { robot = r })
  IsBehind-keep p y r b h = record {
    ahead = b.ahead;
    held = b.held;
    stands = b.stands;
    in_step = h;
    further = b.further;
  }

  Step-IsBehind : (p : Plan F) (y z : System F) → IsBehind p y → Step y z → IsBehind p z
  Step-IsBehind p y z b (request {d = d} {r = r} o e t) =
      let (sent, rep) = request-sends p b.ahead y d (some o) b.stands b.in_step.same_id e in
      let kept : r ≡ y.robot = refused_robot p y d r o b e t in
      let more = send_next-further p b.ahead o (sym sent) in
      let less = b.further in
      record {
        ahead = (send_next p b.ahead).0;
        held = b.held;
        stands = rep;
        in_step = subst (λ q. InStep p b.held q.state) (sym kept) b.in_step;
        further = omega (arith, more, less);
      }
  Step-IsBehind p y z b (quiet {d = d} e) =
      let (sent, rep) = request-sends p b.ahead y d none b.stands b.in_step.same_id e in
      record {
        ahead = b.ahead;
        held = b.held;
        stands = rw (sym (send_next-stays p b.ahead (sym sent))) rep;
        in_step = b.in_step;
        further = b.further;
      }
  Step-IsBehind p y z b (arrive id) =
      IsBehind-keep p y _ b (on_tick-InStep p b.held y.robot id b.in_step)
  Step-IsBehind p y z b (work at last) =
      IsBehind-keep p y _ b (engine_tick-InStep p b.held y.robot at last b.in_step)
  Step-IsBehind p y z b (instant now a other) =
      IsBehind-keep p y _ b (instant-InStep p b.held y.robot now a other b.in_step)

  Reach-IsBehind : (p : Plan F) (y z : System F) → IsBehind p y → Reach y z → IsBehind p z
  Reach-IsBehind p y z b here = b
  Reach-IsBehind p y z b (step_on reach step) =
      Step-IsBehind p _ z (Reach-IsBehind p y _ b reach) step

  -- Once the dispatcher has released its plan further than the robot's order reaches, whatever requests,
  -- arrivals, ticks of the engine and instant actions but cancelOrder come: the robot takes no order that
  -- a request makes the dispatcher send, wherever it stands.
  pub lost_update :
      (p : Plan F) (y z : System F) (d : Dispatcher F) (o : Order F) (at : Position F)
      → IsBehind p y
      → Reach y z
      → extend_if_needed z.dispatcher z.robot.state.order_id ≡ some (d, some o)
      → ¬ Accepts z.robot.state o at
  lost_update p y z d o at b reach e = IsBehind-refuses p z d o at (Reach-IsBehind p y z b reach) e

  -- From a dispatcher and a robot in step, after an extension whose publishing returns an error, whatever
  -- steps the two make (cancelOrder is not among them): the robot takes no order that a request makes the
  -- dispatcher send.
  pub unsent_window :
      (p : Plan F) (s : Progress) (y z : System F) (out : Outside F) (now : String)
      (g : HeaderGenerator) (d d' : Dispatcher F) (outcome : Outcome F) (x : PublishError)
      (o : Order F) (at : Position F)
      → IsSynced p s y
      → extend_published out now g y.dispatcher y.robot.state.order_id ≡ some (d, outcome)
      → outcome.error ≡ some x
      → Reach (record y { dispatcher = d }) z
      → extend_if_needed z.dispatcher z.robot.state.order_id ≡ some (d', some o)
      → ¬ Accepts z.robot.state o at
  unsent_window p s y z out now g d d' outcome x o at h published failed reach sends =
      elim (extend_published_lem out now g y.dispatcher d y.robot.state.order_id outcome
        published) [
          | inl (_, fine) ↦ absurd (cc (fine, failed))
          | inr (window', sent) ↦
              let (is, rep) =
                request-sends p s y d (some window') h.stands h.in_step.same_id sent in
              let b : IsBehind p (record y { dispatcher = d }) = record {
                ahead = (send_next p s).0;
                held = s;
                stands = rep;
                in_step = h.in_step;
                further = send_next-further p s window' (sym is);
              } in
              lost_update p (record y { dispatcher = d }) z d' o at b reach sends
        ]
