-- ===== src/Delivery/Synced.antt =====
-- The dispatcher and the robot stay in step, whatever happens between the orders.
use mathlib.Core.Path.{subst}
use vda.Prelude.{
  suc, ◌+◌, ◌≤◌, ◌≡◌, refl, Option, none, some, false, true, length, arith, ap, ◌∙◌, sym,
  Bool-cases, inl, inr, ltb,
}
use vda.Geometry.{Float64}
use vda.Models.Order.{Order}
use vda.Robot.AcceptOrder.Replay.{Taken}
use vda.Robot.Main.{Robot, on_order}
use vda.Fleet.Dispatcher.{Dispatcher, extend_if_needed}
use vda.Fleet.Dispatcher.Plan.{Plan, Progress, Represents, window, send_next, at_most}
use vda.Fleet.Dispatcher.Refines.{extend-refines}
use vda.Fleet.Dispatcher.Windows.{IsWindow, window_lem}
use vda.Delivery.{System, Step, request, quiet, arrive, work, instant, Reach, here, step_on}
use vda.Delivery.Accepted.{some_inj, IsTaken, IsTaken-state, window-IsTaken}
use vda.Delivery.InStep.{InStep, Taken-InStep, on_tick-InStep, engine_tick-InStep, instant-InStep}

module _ {F : Type 0} ⦃fl : Float64 F⦄ where
  -- The dispatcher stands at the progress, and the robot is in step with it.
  pub record IsSynced (p : Plan F) (s : Progress) (y : System F) : Type 0 where
    pub stands : Represents p s y.dispatcher
    pub in_step : InStep p s y.robot.state

  -- What the plan sends next.
  abbrev pub next_window : Plan F → Progress → Order F
  next_window p s = window p s.reached (at_most 3 p s.reached) s.next_update

  abbrev pub next_progress : Plan F → Progress → Progress
  next_progress p s = record {
    reached = s.reached + at_most 3 p s.reached;
    next_update = suc s.next_update;
  }

  pub send_next-on :
      (p : Plan F) (s : Progress)
      → ltb 0 (at_most 3 p s.reached) ≡ true
      → send_next p s ≡ (next_progress p s, some (next_window p s))
  send_next-on p s e = rw e refl

  pub send_next-off :
      (p : Plan F) (s : Progress)
      → ltb 0 (at_most 3 p s.reached) ≡ false
      → send_next p s ≡ (s, none)
  send_next-off p s e = rw e refl

  pub send_next-sends :
      (p : Plan F) (s : Progress) (o : Order F)
      → (send_next p s).1 ≡ some o
      → (o ≡ next_window p s) × ((send_next p s).0 ≡ next_progress p s)
  send_next-sends p s o e = elim (Bool-cases (ltb 0 (at_most 3 p s.reached))) [
    | inl more ↦
        let on = send_next-on p s more in
        (some_inj _ _ (sym e ∙ ap (λ q. q.1) on), ap (λ q. q.0) on)
    | inr done ↦ let off = ap (λ q. q.1) (send_next-off p s done) in absurd (cc (e, off))
  ]

  pub send_next-stays :
      (p : Plan F) (s : Progress) → (send_next p s).1 ≡ none → (send_next p s).0 ≡ s
  send_next-stays p s e = elim (Bool-cases (ltb 0 (at_most 3 p s.reached))) [
    | inl more ↦ let on = ap (λ q. q.1) (send_next-on p s more) in absurd (cc (e, on))
    | inr done ↦ ap (λ q. q.0) (send_next-off p s done)
  ]

  -- A request sends what the plan sends, since the robot has the plan's order id.
  pub request-sends :
      (p : Plan F) (s : Progress) (y : System F) (d : Dispatcher F) (sent : Option (Order F))
      → Represents p s y.dispatcher
      → y.robot.state.order_id ≡ p.order_id
      → extend_if_needed y.dispatcher y.robot.state.order_id ≡ some (d, sent)
      → (sent ≡ (send_next p s).1) × Represents p (send_next p s).0 d
  request-sends p s y d sent stands same_id e =
      let (d', e', rep) = extend-refines p s y.dispatcher stands in
      let both : (d, sent) ≡ (d', (send_next p s).1) =
        some_inj _ _ (sym e ∙ ap (extend_if_needed y.dispatcher) same_id ∙ e') in
      let here : d ≡ d' = ap (λ q. q.0) both in (ap (λ q. q.1) both, rw here rep)

  pub sends-window :
      (p : Plan F) (s : Progress) (y : System F) (d : Dispatcher F) (o : Order F)
      → Represents p s y.dispatcher
      → y.robot.state.order_id ≡ p.order_id
      → extend_if_needed y.dispatcher y.robot.state.order_id ≡ some (d, some o)
      → o ≡ next_window p s
  sends-window p s y d o stands same_id e =
      (send_next-sends p s o (sym (request-sends p s y d (some o) stands same_id e).0)).0

  -- What a request sends is taken.
  pub request-IsTaken :
      (p : Plan F) (s : Progress) (y : System F) (d : Dispatcher F) (o : Order F)
      → IsSynced p s y
      → extend_if_needed y.dispatcher y.robot.state.order_id ≡ some (d, some o)
      → IsTaken y.robot o
  request-IsTaken p s y d o h e =
      let k = at_most 3 p s.reached in
      let within = h.stands.within in
      rw (sends-window p s y d o h.stands h.in_step.same_id e) (
        window-IsTaken p s k y.robot
          (window_lem p s.reached k s.next_update (ground (arith, within))) h.in_step)

  -- A robot that takes a window of the plan is in step then.
  pub window-IsSynced :
      (p : Plan F) (s : Progress) (r r' : Robot F) (d : Dispatcher F)
      → InStep p s r.state
      → s.reached ≤ length p.rest
      → Represents p (next_progress p s) d
      → on_order r (next_window p s) ≡ some r'
      → IsSynced p (next_progress p s) (record { dispatcher = d; robot = r' })
  window-IsSynced p s r r' d h within rep e =
      let k = at_most 3 p s.reached in
      let w : IsWindow p s.reached k s.next_update =
        window_lem p s.reached k s.next_update (ground (arith, within)) in
      let (r'', e', t) =
        IsTaken-state r (next_window p s) w.base.first w.base.rest w.base.nodes_are
          (window-IsTaken p s k r w h) in
      let same : r'' ≡ r' = some_inj _ _ (sym e' ∙ e) in
      let t' : Taken r.state (next_window p s) r'.state =
        subst (λ q. Taken r.state (next_window p s) q.state) same t in
      record {
        stands = rep;
        in_step =
            Taken-InStep p s.reached k (s.reached + k) s.next_update (suc s.next_update) w r.state
              r'.state refl refl t';
      }

  pub Step-IsSynced :
      (p : Plan F) (s : Progress) (y z : System F)
      → IsSynced p s y
      → Step y z
      → (s' : Progress) × IsSynced p s' z
  Step-IsSynced p s y z h (request {d = d} {r = r} o e t) =
      let (sent, rep) = request-sends p s y d (some o) h.stands h.in_step.same_id e in
      let (is, on) = send_next-sends p s o (sym sent) in
      let t' : on_order y.robot (next_window p s) ≡ some r = ap (on_order y.robot) (sym is) ∙ t in
      (
        next_progress p s,
        window-IsSynced p s y.robot r d h.in_step h.stands.within (rw (sym on) rep) t',
      )
  Step-IsSynced p s y z h (quiet {d = d} e) =
      let (sent, rep) = request-sends p s y d none h.stands h.in_step.same_id e in
      (s, record { stands = rw (sym (send_next-stays p s (sym sent))) rep; in_step = h.in_step })
  Step-IsSynced p s y z h (arrive id) =
      (s, record { stands = h.stands; in_step = on_tick-InStep p s y.robot id h.in_step })
  Step-IsSynced p s y z h (work at last) =
      (s, record { stands = h.stands; in_step = engine_tick-InStep p s y.robot at last h.in_step })
  Step-IsSynced p s y z h (instant now a other) =
      (s, record { stands = h.stands; in_step = instant-InStep p s y.robot now a other h.in_step })

  pub Reach-IsSynced :
      (p : Plan F) (s : Progress) (y z : System F)
      → IsSynced p s y
      → Reach y z
      → (s' : Progress) × IsSynced p s' z
  Reach-IsSynced p s y z h here = (s, h)
  Reach-IsSynced p s y z h (step_on reach step) =
      let (s', h') = Reach-IsSynced p s y _ h reach in Step-IsSynced p s' _ z h' step
