-- ===== src/Delivery/Feedback/Cycle.antt =====
-- A request that is heard, its answer, and the message behind it.
use vda.Prelude.{
  ℕ, zero, suc, ◌+◌, ◌-◌, ◌≤◌, ◌<◌, ◌≡◌, refl, sym, ap, ◌∙◌, true, false, none, some, List, [], ◌∷◌,
  take, drop, length, length-map, keep, arith, All, inl, inr,
}
use vda.Prelude.Int.{ℤ, ◌≤ℤ◌}
use vda.Prelude.Text.{String}
use vda.Geometry.{Float64}
use vda.Models.Action.{Header}
use vda.Models.Order.{Order}
use vda.Validation.Weave.{weave-above}
use vda.Delivery.InStep.{InStep}
use vda.Robot.OrderState.{OrderState, stitch, close_accept, update_order, keeps_node}
use vda.Robot.AcceptOrder.Decision.{FitsUpdate-state}
use vda.Robot.Main.{Robot, on_order, position}
use vda.Robot.Main.Handler.{on_order-Handled}
use vda.Robot.State.{build_state}
use vda.Fleet.Dispatcher.{Dispatcher, released_node, extend_if_needed}
use vda.Fleet.Dispatcher.Plan.{Plan, Progress, window, at_most}
use vda.Fleet.Dispatcher.Windows.{IsWindow, window_lem}
use vda.Fleet.Watcher.Pending.{pending_own, not_called, called_new}
use vda.Delivery.Accepted.{some_inj, window-IsTaken, window-FitsUpdate}
use vda.Delivery.Synced.{IsSynced, next_window, next_progress}
use vda.Delivery.Release.{request_on}
use vda.Delivery.Feedback.{Watching, sender, hear, with_robot}
use vda.Delivery.Feedback.Road.{road, road_of, road-append, road-All, asks_by_road}
use vda.Delivery.Feedback.Overlooked.{heard, hear_silent, sender-build_state}

take-length : {A : Type 0} (k : ℕ) (xs : List A) → k ≤ length xs → length (take k xs) ≡ k
take-length zero xs h = refl
take-length (suc k) [] h = absurd (omega arith)
take-length (suc k) (x ∷ xs) h = ap suc (take-length k xs (omega arith))

drop-length : {A : Type 0} (i : ℕ) (xs : List A) → length (drop i xs) ≡ length xs - i
drop-length zero xs = omega arith
drop-length (suc i) [] = omega arith
drop-length (suc i) (x ∷ xs) = omega (arith, drop-length i xs)

module _ {F : Type 0} where
  window-length :
      (p : Plan F) (i k u : ℕ) → i + k ≤ length p.rest → length (window p i k u).nodes ≡ suc k
  window-length p i k u h =
      length-map released_node (take (suc k) (drop i (p.first ∷ p.rest)))
      ∙ take-length (suc k) (drop i (p.first ∷ p.rest))
          (omega (arith, drop-length i (p.first ∷ p.rest)))

  -- Of a window the nodes behind the first one are road.
  window_road :
      (p : Plan F) (i k u : ℕ) (w : IsWindow p i k u) (last : ℤ)
      → i + k ≤ length p.rest
      → last ≤ℤ w.base.first.sequence_id
      → k ≤ road last (window p i k u).nodes
  window_road p i k u w last h le =
      let b = w.base in
      let size : suc (length b.rest) ≡ suc k =
        sym (ap length b.nodes_are) ∙ window-length p i k u h in
      let all : All (λ n. n.released ≡ true) (b.first ∷ b.rest) = b.base.0 in
      let ahead = (weave-above b.first b.rest _ last le b.joined).1 in
      let behind = road-All last b.rest all.1 ahead in
      let split = road-append last (b.first ∷ []) b.rest in
      let nodes = ap (road last) b.nodes_are in omega (arith, size, behind, split, nodes)

  stitched_road :
      (t : OrderState F) (o : Order F)
      → road t.last_node_sequence_id o.nodes ≤ road_of (close_accept o (update_order t o))
  unfolding stitch
  stitched_road t o =
      let split =
        road-append t.last_node_sequence_id
          (keep (keeps_node t.last_node_sequence_id t.decision_sequence_id) t.nodes) o.nodes in
      omega (arith, split)

module _ {F : Type 0} ⦃fl : Float64 F⦄ where
  -- A robot that takes the next window, and has not passed the decision node, has the window's nodes
  -- behind that node for road.
  taken_road :
      (p : Plan F) (s : Progress) (k : ℕ) (r r' : Robot F)
      (w : IsWindow p s.reached k s.next_update)
      → s.reached + k ≤ length p.rest
      → InStep p s r.state
      → r.state.last_node_sequence_id ≤ℤ r.state.decision_sequence_id
      → on_order r (window p s.reached k s.next_update) ≡ some r'
      → k ≤ road_of r'.state
  taken_road p s k r r' w within h le e =
      let o = window p s.reached k s.next_update in
      let b = w.base in
      let fits = window-FitsUpdate p s k r.state w h in
      let t = window-IsTaken p s k r w h in
      let (v, took, yes') = t.accepted in
      let (r'', same, outcome) = on_order-Handled r o b.first b.rest b.nodes_are in
      let is : r' ≡ r'' = some_inj r' r'' (sym e ∙ same) in
      let low : r.state.last_node_sequence_id ≤ℤ b.first.sequence_id = rw fits.decision_number le in
      let more =
        window_road p s.reached k s.next_update w r.state.last_node_sequence_id within low in
      elim outcome [
        | inl (inl (x, bad), _) ↦ absurd (cc (t.valid, bad))
        | inl (inr (v', took', no'), _) ↦ absurd (cc (took, took', yes', no'))
        | inr (_, (v', took', _, q)) ↦
            let left =
              FitsUpdate-state r.state o (position r) v' b.first b.rest b.nodes_are fits took' in
            let road' : road_of r'.state ≡ road_of (close_accept o (update_order r.state o)) =
              ap (λ x. road_of x.state) is ∙ ap road_of (q ∙ left) in
            let split = stitched_road r.state o in omega (arith, more, road', split)
      ]

  hear_request :
      (me : String) (h : Header) (y : Watching F) (d : Dispatcher F) (o : Order F)
      → sender h ≡ me
      → y.watcher.pending me ≡ false
      → road_of y.system.robot.state < 2
      → extend_if_needed y.system.dispatcher y.system.robot.state.order_id ≡ some (d, some o)
      → hear h y ≡ some (record (heard h y) { system = record y.system { dispatcher = d } }, some o)
  unfolding hear build_state
  hear_request me h y d o own fresh short e =
      let s = build_state h y.system.robot in
      let called = called_new y.watcher s me (sender-build_state h y.system.robot ∙ own) fresh in
      let asks = asks_by_road h y.system.robot in ground (arith, called, asks, short, e)

  -- A robot with two nodes of road does not ask, and the watcher forgets that it did.
  hear_quiet :
      (me : String) (h : Header) (y : Watching F)
      → sender h ≡ me
      → 2 ≤ road_of y.system.robot.state
      → (hear h y ≡ some (heard h y, none)) × ((heard h y).watcher.pending me ≡ false)
  hear_quiet me h y own enough =
      let s = build_state h y.system.robot in
      let from = sender-build_state h y.system.robot ∙ own in
      let by_road = asks_by_road h y.system.robot in
      let quiet : s.new_base_request ≡ false = ground (arith, by_road, enough) in
      (hear_silent h y (not_called y.watcher s quiet), pending_own y.watcher s me from ∙ quiet)

  -- A message of the robot is heard on which the dispatcher sends the next window. The robot takes it and is
  -- in step then, and the watcher hears from the robot's next message that the request is over.
  pub record Answered (me : String) (p : Plan F) (s : Progress) (y : Watching F)
      (first next : Header) : Type 0 where
    pub asked : Watching F
    pub robot : Robot F
    pub calm : Watching F
    pub sends : hear first y ≡ some (asked, some (next_window p s))
    pub takes : on_order asked.system.robot (next_window p s) ≡ some robot
    pub in_step : IsSynced p (next_progress p s) (with_robot asked robot).system
    pub hears : hear next (with_robot asked robot) ≡ some (calm, none)
    pub same : calm.system ≡ (with_robot asked robot).system
    pub over : calm.watcher.pending me ≡ false

  -- From a dispatcher and a robot in step, while no request of the robot is pending: a robot that asks for
  -- a new base, and has not passed its decision node, is answered, if two nodes of the plan or more are
  -- left.
  pub request-Answered :
      (me : String) (p : Plan F) (s : Progress) (y : Watching F) (first next : Header)
      → sender first ≡ me
      → sender next ≡ me
      → IsSynced p s y.system
      → y.watcher.pending me ≡ false
      → (build_state first y.system.robot).new_base_request ≡ true
      → y.system.robot.state.last_node_sequence_id ≤ℤ y.system.robot.state.decision_sequence_id
      → s.reached + 2 ≤ length p.rest
      → Answered me p s y first next
  request-Answered me p s y first next own own' synced fresh asks le left =
      let by_road = asks_by_road first y.system.robot in
      let k = at_most 3 p s.reached in
      let (d, r, sends, handled, synced') = request_on p s y.system synced (ground (arith, left)) in
      let short : road_of y.system.robot.state < 2 = ground (arith, by_road, asks) in
      let w : IsWindow p s.reached k s.next_update =
        window_lem p s.reached k s.next_update (ground (arith, left)) in
      let more =
        taken_road p s k y.system.robot r w (ground (arith, left)) synced.in_step le handled in
      let asked = record (heard first y) { system = record y.system { dispatcher = d } } in
      let (hears, over) =
        hear_quiet me next (with_robot asked r) own' (ground (arith, more, left)) in
      record {
        asked = asked;
        robot = r;
        calm = heard next (with_robot asked r);
        sends = hear_request me first y d (next_window p s) own fresh short sends;
        takes = handled;
        in_step = synced';
        hears = hears;
        same = refl;
        over = over;
      }
