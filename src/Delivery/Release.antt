-- ===== src/Delivery/Release.antt =====
-- What comes of a whole plan: every order is taken, and all of the plan is released.
use mathlib.Core.Path.{subst}
use mathlib.Core.Option.{none}
use vda.Prelude.{
  ℕ, zero, suc, ◌+◌, ◌*◌, ◌≤◌, ◌≡◌, some, true, length, arith, ap, ◌∙◌, sym, Bool-cases, inl, inr,
  ltb,
}
use vda.Geometry.{Float64}
use vda.Models.Order.{Order}
use vda.Robot.Main.{Robot, on_order}
use vda.Fleet.Dispatcher.{Dispatcher, start, extend_if_needed}
use vda.Fleet.Dispatcher.Plan.{Plan, Progress, Represents, begin, at_most}
use vda.Fleet.Dispatcher.Refines.{IsNew, extend-refines}
use vda.Fleet.Dispatcher.Windows.{IsWindow, window_lem}
use vda.Delivery.{System, Reach}
use vda.Delivery.InStep.{InStep}
use vda.Delivery.Accepted.{
  some_inj, CanBegin, IsTaken, IsTaken-state, window-IsTaken, begin_accepted,
}
use vda.Delivery.Synced.{
  IsSynced, Reach-IsSynced, request-IsTaken, next_progress, next_window, send_next-on,
  send_next-off, window-IsSynced,
}

module _ {F : Type 0} ⦃fl : Float64 F⦄ where
  begun-IsSynced :
      (p : Plan F) (d d' : Dispatcher F) (r r' : Robot F) (o : Order F)
      → IsNew p d
      → CanBegin p r
      → start d ≡ some (d', o)
      → on_order r o ≡ some r'
      → IsSynced p (begin p).0 (record { dispatcher = d'; robot = r' })
  begun-IsSynced p d d' r r' o new can e t =
      let (d1, r1, started, _, handled, rep, step) = begin_accepted p d r new can in
      let same : (d1, (begin p).1) ≡ (d', o) = some_inj _ _ (sym started ∙ e) in
      let same_robot : r1 ≡ r' = some_inj _ _ (sym handled ∙ ap (λ q. on_order r q.1) same ∙ t) in
      record {
        stands = subst (λ q. Represents p (begin p).0 q.0) same rep;
        in_step = subst (λ q. InStep p (begin p).0 q.state) same_robot step;
      }

  -- Between a new dispatcher and a robot that is idle, has another order id and is in range of the first
  -- node of the plan: whatever requests, arrivals, ticks of the engine and instant actions but cancelOrder
  -- come after the first order, where each order that is sent arrives at once, each further order that the
  -- dispatcher sends is valid and taken.
  pub deliveries-IsTaken :
      (p : Plan F) (d d' : Dispatcher F) (r r' : Robot F) (o : Order F) (z : System F)
      (d'' : Dispatcher F) (o' : Order F)
      → IsNew p d
      → CanBegin p r
      → start d ≡ some (d', o)
      → on_order r o ≡ some r'
      → Reach (record { dispatcher = d'; robot = r' }) z
      → extend_if_needed z.dispatcher z.robot.state.order_id ≡ some (d'', some o')
      → IsTaken z.robot o'
  deliveries-IsTaken p d d' r r' o z d'' o' new can e t reach sends =
      let (s, h) =
        Reach-IsSynced p (begin p).0 _ z (begun-IsSynced p d d' r r' o new can e t) reach in
      request-IsTaken p s z d'' o' h sends

  -- So many requests on which an order is sent, one after the other, with nothing in between.
  pub data Requests : ℕ → System F → System F → Type 0 where
    done : {y : System F} → Requests 0 y y
    more :
        {n : ℕ} {y z : System F} {d : Dispatcher F} {r : Robot F} (o : Order F)
        → extend_if_needed y.dispatcher y.robot.state.order_id ≡ some (d, some o)
        → on_order y.robot o ≡ some r
        → Requests n (record { dispatcher = d; robot = r }) z
        → Requests (suc n) y z

  -- A request that sends something can be answered.
  pub request_on :
      (p : Plan F) (s : Progress) (y : System F)
      → IsSynced p s y
      → ltb 0 (at_most 3 p s.reached) ≡ true
      → (d : Dispatcher F) × (r : Robot F) × (extend_if_needed y.dispatcher y.robot.state.order_id
          ≡ some (d, some (next_window p s)))
        × (on_order y.robot (next_window p s) ≡ some r)
        × IsSynced p (next_progress p s) (record { dispatcher = d; robot = r })
  request_on p s y h left =
      let k = at_most 3 p s.reached in
      let within = h.stands.within in
      let (d, sent, rep) = extend-refines p s y.dispatcher h.stands in
      let on = send_next-on p s left in
      let w : IsWindow p s.reached k s.next_update =
        window_lem p s.reached k s.next_update (ground (arith, within)) in
      let (r, handled, _) =
        IsTaken-state y.robot (next_window p s) w.base.first w.base.rest w.base.nodes_are
          (window-IsTaken p s k y.robot w h.in_step) in
      let sends : extend_if_needed y.dispatcher y.robot.state.order_id
          ≡ some (d, some (next_window p s)) =
        ap (extend_if_needed y.dispatcher) h.in_step.same_id ∙ sent ∙ ap (λ q. some (d, q.1)) on in
      let rep' : Represents p (next_progress p s) d = subst (λ q. Represents p q.0 d) on rep in
      (d, r, sends, handled, window-IsSynced p s y.robot r d h.in_step within rep' handled)

  -- The whole plan is released, the robot holds it to its end, and a request sends nothing.
  pub record IsReleased (p : Plan F) (z : System F) : Type 0 where
    pub update : ℕ
    pub synced : IsSynced p (record { reached = length p.rest; next_update = update }) z
    pub silent :
        (d : Dispatcher F) × (extend_if_needed z.dispatcher z.robot.state.order_id ≡ some (d, none))

  -- At most so many requests lead to the end.
  abbrev pub Finishes : ℕ → Plan F → System F → Type 0
  Finishes m p y = (n : ℕ) × (z : System F) × (n ≤ m) × Requests n y z × IsReleased p z

  Finishes-here :
      (m : ℕ) (p : Plan F) (s : Progress) (y : System F)
      → IsSynced p s y
      → s.reached ≡ length p.rest
      → Finishes m p y
  Finishes-here m p s y h all =
      let (d, sent, _) = extend-refines p s y.dispatcher h.stands in
      let off = send_next-off p s (ground (arith, all)) in
      (
        0,
        y,
        omega arith,
        done,
        record {
          update = s.next_update;
          synced =
              subst (λ i. IsSynced p (record { reached = i; next_update = s.next_update }) y) all h;
          silent = (
            d,
            ap (extend_if_needed y.dispatcher) h.in_step.same_id
                ∙ sent
                ∙ ap (λ q. some (d, q.1)) off,
          );
        },
      )

  -- From a dispatcher and a robot in step: if `m` requests for three nodes each reach the end of the plan,
  -- then `m` requests or fewer that send an order release all of it. The robot holds the plan to its end
  -- then, and the next request sends nothing.
  pub releases_all :
      (m : ℕ) (p : Plan F) (s : Progress) (y : System F)
      → IsSynced p s y
      → length p.rest ≤ s.reached + 3 * m
      → Finishes m p y
  releases_all zero p s y h enough = Finishes-here 0 p s y h (omega (arith, h.stands.within))
  releases_all (suc m) p s y h enough = elim (Bool-cases (ltb 0 (at_most 3 p s.reached))) [
    | inl more_left ↦
        let (d, r, sends, handled, h') = request_on p s y h more_left in
        let fewer : length p.rest ≤ s.reached + at_most 3 p s.reached + 3 * m =
          ground (arith, enough) in
        let (n, z, few, requests, all) = releases_all m p (next_progress p s) _ h' fewer in
        (suc n, z, omega arith, more (next_window p s) sends handled requests, all)
    | inr none_left ↦ Finishes-here (suc m) p s y h (ground (arith, h.stands.within))
  ]
