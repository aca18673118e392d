-- ===== src/Robot/State/Reports.antt =====
-- What the state message tells of the robot.
use mathlib.Core.List.{append-nil}
use vda.Prelude.{
  ℕ, zero, suc, ltb, length, ◌-◌, ◌≤◌, ◌≡◌, refl, ◌≢◌, if◌then◌else◌, keep-map, ◌↔◌, ◌⊎◌, inl, inr,
  Bool, true, false, not, some, List, [], ◌∷◌, ◌++◌, map, keep, All, arith, Bool-cases,
  Option-cases, ap, ◌∙◌, sym, get_elem?,
}
use vda.Prelude.Int.{◌≤ℤ◌, leb_ℤ}
use vda.Prelude.Text.{String, str_eq, eq_iff}
use vda.Geometry.{Float64}
use vda.Models.Action.{Header}
use vda.Models.Order.{Node, Edge}
use vda.Models.State.{NodeState, ActionState, ActionStatus}
use vda.Sim.{Simulator, driving, can_drive}
use vda.Robot.ActionEngine.{
  is_terminal, stops_driving, driving_allowed, action_states, cancel_all, advance, Moment,
}
use vda.Robot.ActionEngine.Progress.{driving_allowed_iff}
use vda.Robot.Main.{Robot, on_tick, sequence_id_for}
use vda.Robot.InstantActions.{cancel_order, keep_nodes_up_to, keep_edges_up_to}
use vda.Robot.State.{
  StatePublisher, state_heartbeat, mark_dirty, due, nodes_ahead, edges_ahead, node_state,
  edge_state, is_driving, build_state, equal_action_states, engine_tick, planned_of_nodes,
  planned_of_edges, status_number,
}

-- No element passes both a test and its negation.
keep_clash : {A : Type 0} (p : A → Bool) (xs : List A) → keep (λ x. not (p x)) (keep p xs) ≡ []
unfolding keep
keep_clash p [] = refl
keep_clash p (x ∷ xs) = elim (Bool-cases (p x)) [
  | inl e ↦ rw (e, e) (keep_clash p xs)
  | inr e ↦ rw e (keep_clash p xs)
]

-- A filter that implies another does its work alone.
keep-keep :
    {A B : Type 0} (f : A → B) (p : A → Bool) (q : B → Bool) (xs : List A)
    → ((x : A) → q (f x) ≡ true → p x ≡ true)
    → keep q (map f (keep p xs)) ≡ keep q (map f xs)
unfolding keep
keep-keep f p q [] h = refl
keep-keep f p q (x ∷ xs) h = elim (Bool-cases (q (f x))) [
  | inl k ↦ rw (h x k, k) (ap (◌∷◌ (f x)) (keep-keep f p q xs h))
  | inr k ↦ elim (Bool-cases (p x)) [
    | inl e ↦ rw (e, k) (keep-keep f p q xs h)
    | inr e ↦ rw (e, k) (keep-keep f p q xs h)
  ]
]

-- What the comparison looks at.
abbrev pub reported : ActionState → String × ActionStatus
reported a = (a.action_id, a.action_status)

status_number_lem : (s t : ActionStatus) → (status_number s ≡ status_number t) ↔ (s ≡ t)
status_number_lem s t = ground arith

-- `equalActionStates` is true exactly for lists that report the same ids and statuses in the same order.
pub equal_action_states_lem :
    (xs ys : List ActionState)
    → (equal_action_states xs ys ≡ true) ↔ (map reported xs ≡ map reported ys)
unfolding equal_action_states
equal_action_states_lem [] [] = (λ h. refl, λ h. refl)
equal_action_states_lem [] (y ∷ ys) = (λ h. cc, λ h. cc)
equal_action_states_lem (x ∷ xs) [] = (λ h. cc, λ h. cc)
equal_action_states_lem (x ∷ xs) (y ∷ ys) = ground (
  arith,
  equal_action_states_lem xs ys,
  eq_iff x.action_id y.action_id,
  status_number_lem x.action_status y.action_status,
)

get_elem?-lt :
    {A : Type 0} (xs : List A) (i : ℕ) {x : A} → get_elem? xs i ≡ some x → ltb i (length xs) ≡ true
get_elem?-lt [] i h = cc
get_elem?-lt (x ∷ xs) zero h = ground arith
get_elem?-lt (x ∷ xs) (suc i) h = ground (arith, get_elem?-lt xs i h)

module _ {F : Type 0} where
  -- There is a released edge to drive on.
  abbrev pub HasRoad : Simulator F → Type 0
  HasRoad m = (e : Edge F) × (get_elem? m.edges m.edge_idx ≡ some e) × (e.released ≡ true)

  driving_road : (m : Simulator F) → driving m ≡ true → HasRoad m
  unfolding driving can_drive
  driving_road m h = elim (Option-cases (get_elem? m.edges m.edge_idx)) [
    | inl k ↦ ground (arith, k)
    | inr (e, k) ↦ (e, k, ground (arith, k))
  ]

  road_driving : (m : Simulator F) → HasRoad m → driving m ≡ true
  unfolding driving can_drive
  road_driving m (e, k, u) = ground (arith, get_elem?-lt m.edges m.edge_idx k)

  -- What has to hold for the robot to move.
  pub record MayDrive (r : Robot F) : Type 0 where
    pub simulator : Simulator F
    pub started : r.simulator ≡ some simulator
    pub road : HasRoad simulator
    pub not_blocked :
        All
          (λ qa. (is_terminal qa.status ≡ true) ⊎ (stops_driving qa.action.blocking_type ≡ false))
          r.actions
    pub not_paused : r.state.paused ≡ false

  drives : (r : Robot F) → MayDrive r → is_driving r ≡ true
  unfolding is_driving
  drives r d = ground (
    arith,
    d.started,
    road_driving d.simulator d.road,
    (driving_allowed_iff r.actions).1 d.not_blocked,
    d.not_paused,
  )

  may_drive : (r : Robot F) → is_driving r ≡ true → MayDrive r
  unfolding is_driving
  may_drive r h = elim (Option-cases r.simulator) [
    | inl e ↦ cc
    | inr (m, e) ↦
        let moves : driving m ≡ true = ground (arith, e) in
        let allowed : driving_allowed r.actions ≡ true = ground (arith, e) in
        record {
          simulator = m;
          started = e;
          road = driving_road m moves;
          not_blocked = (driving_allowed_iff r.actions).0 allowed;
          not_paused = ground (arith, e);
        }
  ]

module _ {F : Type 0} ⦃fl : Float64 F⦄ where
  -- The message says `driving` exactly when a released edge lies ahead of the started drive, no SOFT or
  -- HARD action is still to end, and the robot is not paused.
  pub driving_iff : (h : Header) (r : Robot F) → ((build_state h r).driving ≡ true) ↔ MayDrive r
  unfolding build_state
  driving_iff h r = (may_drive r, drives r)

  -- After a cancelOrder the message lists no node and no edge that is still to be reached, and no action
  -- but those of the engine's queue.
  pub cancel_order_empties :
      (h : Header) (r : Robot F)
      → ((build_state h (cancel_order r)).node_states ≡ [])
        × ((build_state h (cancel_order r)).edge_states ≡ [])
        × ((build_state h (cancel_order r)).action_states ≡ action_states (cancel_all r.actions))
  unfolding build_state cancel_order keep_nodes_up_to keep_edges_up_to nodes_ahead edges_ahead
      planned_of_nodes planned_of_edges
  cancel_order_empties h r =
      let ns = keep_clash (λ n. leb_ℤ n.sequence_id r.state.last_node_sequence_id) r.state.nodes in
      let es = keep_clash (λ e. leb_ℤ e.sequence_id r.state.last_node_sequence_id) r.state.edges in
      (
        ap (map node_state) ns,
        ap (map edge_state) es,
        rw (ns, es)
            (append-nil (action_states (cancel_all r.actions) ++ [])
              ∙ append-nil (action_states (cancel_all r.actions))),
      )

module _ {F : Type 0} where
  -- After a tick of the engine the last seen states have the ids and the statuses of the queue, and a
  -- robot that is not marked dirty was not before, and has the ids and statuses that were last seen.
  pub engine_tick_lem :
      (at : ℕ → Moment) (r : Robot F) (last : List ActionState)
      → (map reported (engine_tick at r last).1
          ≡ map reported (action_states (engine_tick at r last).0.actions))
        × ((engine_tick at r last).0.dirty ≡ false
            → (r.dirty ≡ false)
              × (map reported (action_states (engine_tick at r last).0.actions)
                  ≡ map reported last))
  unfolding engine_tick
  engine_tick_lem at r last =
      elim (Bool-cases (equal_action_states (action_states (advance at r.actions)) last)) [
        | inl e ↦
            let same = (equal_action_states_lem (action_states (advance at r.actions)) last).0 e in
            rw e (sym same, λ d. (d, same))
        | inr e ↦ rw e (refl, λ d. cc)
      ]

due_clears :
    (t : ℕ) (p : StatePublisher)
    → (due t p).1 ≡ true
    → (due t p).0 ≡ record { dirty = false; last_publish = t }
unfolding due
due_clears t p h = ground arith

-- After the publisher published at one tick, it publishes at the next exactly when something was marked
-- dirty in between or 30 seconds have passed.
pub due_next :
    (t t' : ℕ) (p : StatePublisher) (marked : Bool)
    → (due t p).1 ≡ true
    → ((due t' (if marked then mark_dirty (due t p).0 else (due t p).0)).1 ≡ true)
      ↔ ((marked ≡ true) ⊎ (state_heartbeat ≤ t' - t))
unfolding due mark_dirty
due_next t t' p true h = (λ d. inl refl, λ d. refl)
due_next t t' p false h = rw (due_clears t p h) (ground arith)

module _ {F : Type 0} ⦃fl : Float64 F⦄ where
  nodes_ahead-on_tick :
      (r : Robot F) (id : String)
      → id ≢ ""
      → nodes_ahead (on_tick r id)
        ≡ keep (λ n. not (leb_ℤ n.sequence_id (sequence_id_for r id))) r.state.nodes
  unfolding nodes_ahead on_tick
  nodes_ahead-on_tick r id named = elim (Bool-cases (str_eq id "")) [
    | inl e ↦ absurd (named ((eq_iff id "").0 e))
    | inr e ↦ rw e
  ]

  -- A robot that arrives at a node of its order, not behind the last one, reports what is left of the
  -- node states that it reported before: those behind the node.
  pub on_tick_shrinks :
      (h : Header) (r : Robot F) (id : String)
      → id ≢ ""
      → r.state.last_node_sequence_id ≤ℤ sequence_id_for r id
      → (build_state h (on_tick r id)).node_states
        ≡ keep (λ n. not (leb_ℤ n.sequence_id (sequence_id_for r id))) (build_state h r).node_states
  unfolding build_state nodes_ahead on_tick
  on_tick_shrinks h r id named le =
      let behind : Node F → Bool = λ n. not (leb_ℤ n.sequence_id (sequence_id_for r id)) in
      let before : Node F → Bool = λ n. not (leb_ℤ n.sequence_id r.state.last_node_sequence_id) in
      let test : NodeState F → Bool = λ n. not (leb_ℤ n.sequence_id (sequence_id_for r id)) in
      ap (map node_state) (nodes_ahead-on_tick r id named)
      ∙ sym (keep-map test node_state r.state.nodes)
      ∙ sym (keep-keep node_state before test r.state.nodes (λ n k. ground (arith, le, k)))
