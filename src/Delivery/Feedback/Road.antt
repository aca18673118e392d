-- ===== src/Delivery/Feedback/Road.antt =====
-- How many released nodes a robot has before it, and what changes that.
use vda.Prelude.{
  ℕ, suc, ◌+◌, ◌≤◌, ◌≡◌, refl, ap, true, false, not, Option, List, [], ◌∷◌, ◌++◌, ◌&&◌,
  if◌then◌else◌, map, length, keep, ltb, arith, All, Bool-cases, inl, inr,
}
use vda.Prelude.Int.{ℤ, leb_ℤ, ◌≤ℤ◌, ◌<ℤ◌}
use vda.Prelude.Text.{String, str_eq}
use vda.Errors.{VdaError}
use vda.Geometry.{Float64}
use vda.Models.Action.{Action, Header}
use vda.Models.Order.{Node}
use vda.Models.State.{ActionState}
use vda.Robot.ActionEngine
use vda.Robot.ActionEngine.{Moment, Queue, action_states, retry, skip_retry}
use vda.Robot.OrderState.{OrderState}
use vda.Robot.Main.{Robot, on_tick, sequence_id_for}
use vda.Robot.InstantActions.{apply_instant_action, resolve_target, cancel_order, keep_nodes_up_to}
use vda.Robot.State.{build_state, node_state, nodes_ahead, engine_tick, equal_action_states}

module _ {F : Type 0} where
  -- The released nodes that are numbered above the last one.
  unfoldable pub road : ℤ → List (Node F) → ℕ
  unfolding keep
  road last ns =
      length
        (keep (λ n. n.released) (map node_state (keep (λ n. not (leb_ℤ n.sequence_id last)) ns)))

  abbrev pub road_of : OrderState F → ℕ
  road_of s = road s.last_node_sequence_id s.nodes

  road_step :
      (last : ℤ) (n : Node F) (ns : List (Node F))
      → road last (n ∷ ns) ≡ (
          if n.released && not (leb_ℤ n.sequence_id last) then suc (road last ns) else road last ns)
  unfolding road
  road_step last n ns = ground arith

  road_mono : (last last' : ℤ) (ns : List (Node F)) → last ≤ℤ last' → road last' ns ≤ road last ns
  road_mono last last' [] h = unfold road in omega arith
  road_mono last last' (n ∷ ns) h =
      ground (arith, road_step last n ns, road_step last' n ns, road_mono last last' ns h)

  pub road-append :
      (last : ℤ) (ns ms : List (Node F)) → road last (ns ++ ms) ≡ road last ns + road last ms
  road-append last [] ms = unfold road in omega arith
  road-append last (n ∷ ns) ms =
      ground (arith, road_step last n ns, road_step last n (ns ++ ms), road-append last ns ms)

  road_behind : (last : ℤ) (ns : List (Node F)) → road last (keep_nodes_up_to ns last) ≤ 0
  unfolding keep_nodes_up_to
  road_behind last [] = unfold road in omega arith
  road_behind last (n ∷ ns) = elim (Bool-cases (leb_ℤ n.sequence_id last)) [
    | inl e ↦
        rw e (ground (arith, e, road_step last n (keep_nodes_up_to ns last), road_behind last ns))
    | inr e ↦ rw e (road_behind last ns)
  ]

  -- Nodes that are all released and all ahead.
  pub road-All :
      (last : ℤ) (ns : List (Node F))
      → All (λ n. n.released ≡ true) ns
      → All (λ n. last <ℤ n.sequence_id) ns
      → road last ns ≡ length ns
  road-All last [] r h = unfold road in refl
  road-All last (n ∷ ns) (r, rs) (h, hs) =
      ground (arith, road_step last n ns, road-All last ns rs hs)

  pub road-on_tick :
      (r : Robot F) (id : String)
      → r.state.last_node_sequence_id ≤ℤ sequence_id_for r id
      → road_of (on_tick r id).state ≤ road_of r.state
  unfolding on_tick
  road-on_tick r id h = elim (Bool-cases (str_eq id "")) [
    | inl e ↦ rw e (omega arith)
    | inr e ↦ rw e (road_mono r.state.last_node_sequence_id (sequence_id_for r id) r.state.nodes h)
  ]

  pub engine_tick-state :
      (at : ℕ → Moment) (r : Robot F) (last : List ActionState)
      → (engine_tick at r last).0.state ≡ r.state
  unfolding engine_tick
  engine_tick-state at r last =
      elim (Bool-cases
        (equal_action_states (action_states (ActionEngine.advance at r.actions)) last)) [
          | inl e ↦ rw e refl
          | inr e ↦ rw e refl
        ]

  -- What the road depends on.
  abbrev chain_part : Robot F → ℤ × List (Node F)
  chain_part r = (r.state.last_node_sequence_id, r.state.nodes)

  resolve-chain_part :
      (method : String → Queue → Queue × Option VdaError) (missing : String) (r : Robot F)
      (a : Action)
      → chain_part (resolve_target method missing r a) ≡ chain_part r
  unfolding resolve_target
  resolve-chain_part method missing r a = ground arith

  instant-chain_part :
      (now : ℕ) (r : Robot F) (a : Action)
      → str_eq a.action_type "cancelOrder" ≡ false
      → chain_part (apply_instant_action now r a) ≡ chain_part r
  unfolding apply_instant_action
  instant-chain_part now r a other = ground (
    arith,
    resolve-chain_part (λ target q. retry now target q) "retry requires an actionId parameter" r a,
    resolve-chain_part (λ target q. skip_retry target q) "skipRetry requires an actionId parameter"
        r a,
  )

  cancel_order-road : (r : Robot F) → road_of (cancel_order r).state ≤ 0
  unfolding cancel_order
  cancel_order-road r = road_behind r.state.last_node_sequence_id r.state.nodes

  pub road-instant :
      (now : ℕ) (r : Robot F) (a : Action)
      → road_of (apply_instant_action now r a).state ≤ road_of r.state
  road-instant now r a = elim (Bool-cases (str_eq a.action_type "cancelOrder")) [
    | inl e ↦ unfold apply_instant_action in rw e (omega (arith, cancel_order-road r))
    | inr e ↦
        let same = ap (λ q. road q.0 q.1) (instant-chain_part now r a e) in omega (arith, same)
  ]

module _ {F : Type 0} ⦃fl : Float64 F⦄ where
  -- The state message asks for a new base exactly with fewer than two nodes of released road.
  pub asks_by_road :
      (h : Header) (r : Robot F) → (build_state h r).new_base_request ≡ ltb (road_of r.state) 2
  unfolding build_state nodes_ahead road
  asks_by_road h r = refl
