-- ===== src/Delivery/Feedback/Overlooked.antt =====
-- A watcher that has seen the robot ask, and does not see it stop.
use vda.Prelude.{
  ◌<◌, ◌≡◌, ◌≢◌, refl, sym, ap, ◌∙◌, true, false, Option, none, some, arith, Bool-cases,
  Option-cases, inl, inr,
}
use vda.Prelude.Text.{String, eq_iff}
use vda.Geometry.{Float64}
use vda.Models.Action.{Header}
use vda.Models.Order.{Order}
use vda.Fleet.Dispatcher.{Dispatcher, extend_if_needed}
use vda.Models.State.{State}
use vda.Fleet.Watcher
use vda.Fleet.Watcher.{robot_id}
use vda.Fleet.Watcher.Pending.{pending_own, pending_other, called_own, called_asks}
use vda.Robot.Main.{Robot}
use vda.Robot.State.{build_state}
use vda.Delivery.Feedback.{
  Watching, sender, hear, hear_state, Step, silent, sent, lost, other_silent, other_sent,
  other_lost, arrive, work, instant, Reach, here, later,
}
use vda.Delivery.Feedback.Road.{
  road_of, road-on_tick, engine_tick-state, road-instant, asks_by_road,
}

module _ {F : Type 0} where
  -- The watcher last saw the robot ask for a new base, and the robot has no two nodes of released road.
  pub record IsOverlooked (me : String) (y : Watching F) : Type 0 where
    pub pending : y.watcher.pending me ≡ true
    pub short : road_of y.system.robot.state < 2

module _ {F : Type 0} ⦃fl : Float64 F⦄ where
  -- What is left when nobody is called.
  abbrev pub heard : Header → Watching F → Watching F
  heard h y = record y { watcher = (Watcher.on_state y.watcher (build_state h y.system.robot)).0 }

  pub sender-build_state : (h : Header) (r : Robot F) → robot_id (build_state h r) ≡ sender h
  unfolding build_state
  sender-build_state h r = refl

  pub hear_silent :
      (h : Header) (y : Watching F)
      → (Watcher.on_state y.watcher (build_state h y.system.robot)).1 ≡ false
      → hear h y ≡ some (heard h y, none)
  unfolding hear
  hear_silent h y e = rw e refl

  hear-IsOverlooked :
      (me : String) (h : Header) (y : Watching F)
      → sender h ≡ me
      → IsOverlooked me y
      → (hear h y ≡ some (heard h y, none)) × IsOverlooked me (heard h y)
  hear-IsOverlooked me h y own o =
      let s = build_state h y.system.robot in
      let from : robot_id s ≡ me = sender-build_state h y.system.robot ∙ own in
      let asks : s.new_base_request ≡ true =
        let e = asks_by_road h y.system.robot in ground (arith, e, o.short) in
      (
        hear_silent h y (called_own y.watcher s me from o.pending),
        record { pending = pending_own y.watcher s me from ∙ asks; short = o.short },
      )

  -- The messages that name another order.
  abbrev pub NamesAnother : String → State F → Type 0
  NamesAnother order_id s = s.order_id ≢ order_id

  -- No step sends anything, and the robot goes on asking.
  abbrev Stays : String → Watching F → Watching F → Type 0
  Stays me y z = IsOverlooked me z × (z.system.dispatcher ≡ y.system.dispatcher)

  not_mine :
      (d : Dispatcher F) (order_id : String)
      → order_id ≢ d.order_id
      → extend_if_needed d order_id ≡ some (d, none)
  unfolding extend_if_needed
  not_mine d order_id apart = ground (arith, eq_iff order_id d.order_id)

  -- What a message leaves that names another order than the dispatcher's.
  abbrev pub overheard : State F → Watching F → Watching F
  overheard s y = record y { watcher = (Watcher.on_state y.watcher s).0 }

  pub hear_another :
      (s : State F) (y : Watching F)
      → s.order_id ≢ y.system.dispatcher.order_id
      → hear_state s y ≡ some (overheard s y, none)
  unfolding hear_state
  hear_another s y apart = ground (arith, not_mine y.system.dispatcher s.order_id apart)

  another_only :
      (s : State F) (y z : Watching F) (o : Option (Order F))
      → s.order_id ≢ y.system.dispatcher.order_id
      → hear_state s y ≡ some (z, o)
      → (z ≡ overheard s y) × (o ≡ none)
  another_only s y z o apart e =
      let both : ◌≡◌ {A = Option (Watching F × Option (Order F))} (some (z, o))
          (some (overheard s y, none)) =
        sym e ∙ hear_another s y apart in
      (cc, cc)

  heard_only :
      (me : String) (h : Header) (y z : Watching F) (o : Option (Order F))
      → sender h ≡ me
      → IsOverlooked me y
      → hear h y ≡ some (z, o)
      → (z ≡ heard h y) × (o ≡ none)
  heard_only me h y z o own ov e =
      let (silent', _) = hear-IsOverlooked me h y own ov in
      let both : ◌≡◌ {A = Option (Watching F × Option (Order F))} (some (z, o))
          (some (heard h y, none)) =
        sym e ∙ silent' in
      (cc, cc)

  Step-Stays :
      (me id : String) (y z : Watching F)
      → y.system.dispatcher.order_id ≡ id
      → IsOverlooked me y
      → Step me (NamesAnother id) y z
      → Stays me y z
  Step-Stays me id y z own_id o (silent h own e) =
      let (same, _) = heard_only me h y z none own o e in
      rw same ((hear-IsOverlooked me h y own o).1, refl)
  Step-Stays me id y _ own_id o (sent {z = z} h order own e t) =
      absurd (cc ((heard_only me h y z (some order) own o e).1))
  Step-Stays me id y z own_id o (lost h order own e) =
      absurd (cc ((heard_only me h y z (some order) own o e).1))
  Step-Stays me id y z own_id o (other_silent s other names e) =
      let (same, _) = another_only s y z none (λ q. names (q ∙ own_id)) e in
      let after : IsOverlooked me (overheard s y) = record {
        pending = pending_other y.watcher s me other ∙ o.pending;
        short = o.short;
      } in
      rw same (after, refl)
  Step-Stays me id y _ own_id o (other_sent {z = z} s order other names e t) =
      absurd (cc ((another_only s y z (some order) (λ q. names (q ∙ own_id)) e).1))
  Step-Stays me id y z own_id o (other_lost s order other names e) =
      absurd (cc ((another_only s y z (some order) (λ q. names (q ∙ own_id)) e).1))
  Step-Stays me id y _ own_id o (arrive node_id ahead) =
      let less = road-on_tick y.system.robot node_id ahead in
      let few = o.short in (record { pending = o.pending; short = omega (arith, less, few) }, refl)
  Step-Stays me id y _ own_id o (work at last) =
      let same = ap (λ s. road_of s) (engine_tick-state at y.system.robot last) in
      let few = o.short in (record { pending = o.pending; short = omega (arith, same, few) }, refl)
  Step-Stays me id y _ own_id o (instant now a) =
      let less = road-instant now y.system.robot a in
      let few = o.short in (record { pending = o.pending; short = omega (arith, less, few) }, refl)

  Reach-Stays :
      (me : String) (y z : Watching F)
      → IsOverlooked me y
      → Reach me (NamesAnother y.system.dispatcher.order_id) y z
      → Stays me y z
  Reach-Stays me y _ o here = (o, refl)
  Reach-Stays me y w o (later {z = z} reach s) =
      let (o', same) = Reach-Stays me y z o reach in
      let own_id = ap (λ d. d.order_id) same in
      let (o'', same') = Step-Stays me y.system.dispatcher.order_id z w own_id o' s in
      (o'', same' ∙ same)

  -- Once the watcher has seen the robot ask, no message of a robot without two nodes of released road
  -- makes the dispatcher send an order.
  pub overlooked_stalls :
      (me : String) (y z : Watching F) (h : Header)
      → IsOverlooked me y
      → Reach me (NamesAnother y.system.dispatcher.order_id) y z
      → sender h ≡ me
      → (w : Watching F) × (hear h z ≡ some (w, none)) × (w.system.dispatcher ≡ y.system.dispatcher)
  overlooked_stalls me y z h o reach own =
      let (o', same) = Reach-Stays me y z o reach in
      (heard h z, (hear-IsOverlooked me h z own o').0, same)

  -- The dispatcher is called, with the robot's order id.
  pub hear_called :
      (h : Header) (y z : Watching F) (o : Option (Order F))
      → (Watcher.on_state y.watcher (build_state h y.system.robot)).1 ≡ true
      → hear h y ≡ some (z, o)
      → (extend_if_needed y.system.dispatcher y.system.robot.state.order_id
          ≡ some (z.system.dispatcher, o))
        × (z.watcher ≡ (heard h y).watcher)
        × (z.system.robot ≡ y.system.robot)
  unfolding hear build_state
  hear_called h y z o called e =
      elim (Option-cases (extend_if_needed y.system.dispatcher y.system.robot.state.order_id)) [
        | inl q ↦ absurd (ground arith)
        | inr ((d, sent'), q) ↦ (ground arith, ground arith, ground arith)
      ]

  -- A message on which an order is sent has called the dispatcher: the robot asks.
  pub hear-sends :
      (me : String) (h : Header) (y z : Watching F) (o : Order F)
      → sender h ≡ me
      → hear h y ≡ some (z, some o)
      → IsOverlooked me z
  hear-sends me h y z o own e =
      let s = build_state h y.system.robot in
      elim (Bool-cases (Watcher.on_state y.watcher s).1) [
        | inr quiet ↦ absurd (
            let both : ◌≡◌ {A = Option (Watching F × Option (Order F))} (some (z, some o))
                (some (heard h y, none)) =
              sym e ∙ hear_silent h y quiet in
            cc)
        | inl called ↦
            let (_, watcher, robot) = hear_called h y z (some o) called e in
            let asks = called_asks y.watcher s called in
            let by_road = asks_by_road h y.system.robot in
            record {
              pending =
                  ap (λ w. w.pending me) watcher
                  ∙ pending_own y.watcher s me (sender-build_state h y.system.robot ∙ own)
                  ∙ asks;
              short = rw robot (ground arith);
            }
      ]

  -- If an order that a request makes the dispatcher send is lost, then whatever comes, arrivals at nodes
  -- that are not behind the last one, ticks of the engine, instant actions, messages of this robot, and
  -- messages of other robots that name another order than the dispatcher's: no message of the robot makes
  -- the dispatcher send an order, and the dispatcher stays as it was.
  pub lost_order_stalls :
      (me : String) (y z w : Watching F) (first next : Header) (o : Order F)
      → sender first ≡ me
      → hear first y ≡ some (z, some o)
      → Reach me (NamesAnother z.system.dispatcher.order_id) z w
      → sender next ≡ me
      → (v : Watching F) × (hear next w ≡ some (v, none))
        × (v.system.dispatcher ≡ z.system.dispatcher)
  lost_order_stalls me y z w first next o own sends reach own' =
      overlooked_stalls me z w next (hear-sends me first y z o own sends) reach own'
