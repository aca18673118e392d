-- ===== src/Robot/RoundTrip.antt =====
-- robot/main.go on an order whose base ends in the node in which it starts.
use vda.Prelude.{
  ℕ, ◌≡◌, ◌≢◌, sym, ap, ◌∙◌, true, none, some, List, [], ◌∷◌, arith, All, Bool-cases, inl, inr,
}
use vda.Prelude.Int.{ℤ, IsEven, eqb_ℤ_iff}
use vda.Prelude.Text.{String, str_eq, eq_iff}
use vda.Geometry.{Float64, Position}
use vda.Models.Action.{Action}
use vda.Models.Order.{Node, Order}
use vda.Models.State.{ActionState}
use vda.Validation.{validate_order, sequence_of}
use vda.Validation.Sorting.{Sequence, of_node, sort_slice}
use vda.Validation.Decides.{validate_order_iff}
use vda.Robot.ActionEngine.{Moment}
use vda.Robot.OrderState.{OrderState, is_idle, decision_point, close_accept, replace_order}
use vda.Robot.OrderState.Decided.{decision-named}
use vda.Robot.OrderState.Sound.{not_undecided}
use vda.Robot.AcceptOrder.Decision.{Accepts, FitsNew, Accepts-iff, FitsNew-accepted, FitsNew-state}
use vda.Robot.Main.{Robot, on_order, on_tick, position, sequence_id_in, sequence_id_for}
use vda.Robot.Main.Handler.{on_order-Handled}
use vda.Robot.InstantActions.{apply_instant_action}
use vda.Robot.State.{engine_tick}
use vda.Robot.Loop.Course.{Alike, engine_tick-Alike, instant-Alike}

module _ {F : Type 0} where
  -- No node that is looked up by its id is found to have the number of the decision node.
  record IsAstray (s : OrderState F) : Type 0 where
    named : s.order_id ≢ ""
    apart : s.last_node_sequence_id ≢ s.decision_sequence_id
    masked : (id : String) → sequence_id_in id s.nodes ≢ s.decision_sequence_id

  IsAstray-busy : (s : OrderState F) → IsAstray s → is_idle s ≢ true
  unfolding is_idle
  IsAstray-busy s a h =
      ground (arith, eq_iff s.order_id "", eqb_ℤ_iff s.last_node_sequence_id s.decision_sequence_id)

  Alike-IsAstray : (r r' : Robot F) → Alike r r' → IsAstray r.state → IsAstray r'.state
  Alike-IsAstray r r' (drive, (p, s)) a =
      rw s (record { named = a.named; apart = a.apart; masked = a.masked })

  on_tick-IsAstray : (r : Robot F) (id : String) → IsAstray r.state → IsAstray (on_tick r id).state
  unfolding on_tick sequence_id_for
  on_tick-IsAstray r id a = elim (Bool-cases (str_eq id "")) [
    | inl e ↦ rw e a
    | inr e ↦ rw e (record { named = a.named; apart = a.masked id; masked = a.masked })
  ]

  unlisted :
      (id : String) (d : String × ℤ) (ns : List (Node F))
      → IsEven d.1
      → All (λ n. n.sequence_id ≡ d.1 → n.node_id ≡ d.0) ns
      → id ≢ d.0
      → sequence_id_in id ns ≢ d.1
  unfolding sequence_id_for
  unlisted id d [] even h other = not_undecided d.1 even
  unlisted id d (n ∷ ns) even (h, hs) other = elim (Bool-cases (str_eq n.node_id id)) [
    | inl e ↦
        let same : n.node_id ≡ id = ground (arith, eq_iff n.node_id id) in
        rw e (λ q. other (sym same ∙ h q))
    | inr e ↦ rw e (unlisted id d ns even hs other)
  ]

  round_masked :
      (id : String) (d : String × ℤ) (ns : List (Node F)) (first : Node F) (rest : List (Node F))
      → ns ≡ first ∷ rest
      → IsEven d.1
      → All (λ n. n.sequence_id ≡ d.1 → n.node_id ≡ d.0) ns
      → first.node_id ≡ d.0
      → first.sequence_id ≢ d.1
      → sequence_id_in id ns ≢ d.1
  unfolding sequence_id_for
  round_masked id d ns first rest e even h back apart =
      let (_, hs) : All (λ n. n.sequence_id ≡ d.1 → n.node_id ≡ d.0) (first ∷ rest) = rw e at h in
      elim (Bool-cases (str_eq first.node_id id)) [
        | inl same ↦ rw (e, same) apart
        | inr differs ↦
            let other : id ≢ d.0 = λ q. ground (arith, eq_iff first.node_id id, back ∙ sym q) in
            rw (e, differs) (unlisted id d rest even hs other)
      ]

  -- An order with an id that lists its lowest node `start` first, which is released, and whose base comes
  -- back to that node under another number.
  pub record ComesBack (o : Order F) (start : Node F) : Type 0 where
    pub rest : List (Node F)
    pub tail : List (Sequence F)
    pub named : o.order_id ≢ ""
    pub lists : o.nodes ≡ start ∷ rest
    pub sorted : sort_slice (sequence_of o.nodes o.edges) ≡ of_node start ∷ tail
    pub base : start.released ≡ true
    pub back : start.node_id ≡ (decision_point o.nodes o.edges).0
    pub later : start.sequence_id ≢ (decision_point o.nodes o.edges).1

  begins-IsAstray :
      (s : OrderState F) (o : Order F) (start : Node F) (c : ComesBack o start)
      → validate_order o ≡ none
      → IsAstray (close_accept o (replace_order s o start))
  begins-IsAstray s o start c valid =
      let d = decision_point o.nodes o.edges in
      let (even, names) =
        decision-named o.nodes o.edges start c.tail ((validate_order_iff o).0 valid) c.sorted
          c.base in
      record {
        named = c.named;
        apart = c.later;
        masked = λ id. round_masked id d o.nodes start c.rest c.lists even names c.back c.later;
      }

module _ {F : Type 0} ⦃fl : Float64 F⦄ where
  IsAstray-refuses :
      (s : OrderState F) (o : Order F) (p : Position F) (first : Node F) (rest : List (Node F))
      → IsAstray s
      → o.nodes ≡ first ∷ rest
      → o.order_id ≢ s.order_id
      → ¬ Accepts s o p
  IsAstray-refuses s o p first rest a e other accepts =
      elim ((Accepts-iff s o p first rest e).0 accepts) [
        | inl new ↦ IsAstray-busy s a new.idle
        | inr update ↦ other update.same_id
      ]

  -- The handler leaves such a robot as it is.
  IsAstray-same :
      (r : Robot F) (o : Order F) (first : Node F) (rest : List (Node F))
      → IsAstray r.state
      → o.nodes ≡ first ∷ rest
      → o.order_id ≢ r.state.order_id
      → on_order r o ≡ some r
  IsAstray-same r o first rest a e other =
      let (r', t, outcome) = on_order-Handled r o first rest e in
      elim outcome [
        | inl (why, same) ↦ t ∙ ap some same
        | inr (valid, (v, h, accepted, q)) ↦
            absurd (IsAstray-refuses r.state o (position r) first rest a e other (v, h, accepted))
      ]

  -- What comes behind the order: orders with other ids, arrivals at any nodes, ticks of the action engine,
  -- and instant actions but cancelOrder.
  pub data Onward (r : Robot F) : Robot F → Type 0 where
    here : Onward r r
    order :
        {r' r'' : Robot F} {first : Node F} {rest : List (Node F)} (o : Order F)
        → Onward r r'
        → o.nodes ≡ first ∷ rest
        → o.order_id ≢ r'.state.order_id
        → on_order r' o ≡ some r''
        → Onward r r''
    arrive : {r' : Robot F} (node_id : String) → Onward r r' → Onward r (on_tick r' node_id)
    work :
        {r' : Robot F} (at : ℕ → Moment) (last : List ActionState)
        → Onward r r'
        → Onward r (engine_tick at r' last).0
    instant :
        {r' : Robot F} (now : ℕ) (a : Action)
        → Onward r r'
        → a.action_type ≢ "cancelOrder"
        → Onward r (apply_instant_action now r' a)

  Onward-IsAstray : (r r' : Robot F) → IsAstray r.state → Onward r r' → IsAstray r'.state
  Onward-IsAstray r _ a here = a
  Onward-IsAstray r r'' a (order {r' = r'} {first = first} {rest = rest} o run e other t) =
      let a' = Onward-IsAstray r r' a run in
      let same : r' ≡ r'' = cc (t, IsAstray-same r' o first rest a' e other) in rw (← same) a'
  Onward-IsAstray r _ a (arrive {r' = r'} id run) =
      on_tick-IsAstray r' id (Onward-IsAstray r r' a run)
  Onward-IsAstray r _ a (work {r' = r'} at last run) =
      Alike-IsAstray r' (engine_tick at r' last).0 (engine_tick-Alike at r' last)
        (Onward-IsAstray r r' a run)
  Onward-IsAstray r _ a (instant {r' = r'} now i run other) =
      Alike-IsAstray r' (apply_instant_action now r' i) (instant-Alike now r' i other)
        (Onward-IsAstray r r' a run)

  taken-IsAstray :
      (r r' : Robot F) (o : Order F) (start : Node F) (c : ComesBack o start)
      → validate_order o ≡ none
      → FitsNew r.state o (position r) start
      → on_order r o ≡ some r'
      → IsAstray r'.state
  taken-IsAstray r r' o start c valid fits t =
      let (v, took, yes') = FitsNew-accepted r.state o (position r) start c.rest c.lists fits in
      let (r'', same, outcome) = on_order-Handled r o start c.rest c.lists in
      let is : r'' ≡ r' = cc (same, t) in
      elim outcome [
        | inl (inl (x, bad), _) ↦ absurd (cc (valid, bad))
        | inl (inr (v', took', no'), _) ↦ absurd (cc (took, took', yes', no'))
        | inr (_, (v', took', _, q)) ↦
            let left = FitsNew-state r.state o (position r) v' start c.rest c.lists fits took' in
            rw (← is, q, left) (begins-IsAstray r.state o start c valid)
      ]

  -- A robot takes a valid new order that has an id, lists its lowest node first, released, and whose base
  -- ends in that node again, under another sequenceId. Whatever orders with nodes and other ids, arrivals,
  -- ticks of the engine and instant actions but cancelOrder follow: it refuses each order with nodes and
  -- another id, and such an order leaves it as it was.
  pub round_trip_sticks :
      (r r' r'' : Robot F) (o : Order F) (start : Node F) (c : ComesBack o start) (next : Order F)
      (first : Node F) (rest : List (Node F))
      → validate_order o ≡ none
      → FitsNew r.state o (position r) start
      → on_order r o ≡ some r'
      → Onward r' r''
      → next.nodes ≡ first ∷ rest
      → next.order_id ≢ r''.state.order_id
      → (¬ Accepts r''.state next (position r'')) × (on_order r'' next ≡ some r'')
  round_trip_sticks r r' r'' o start c next first rest valid fits t run e other =
      let a = Onward-IsAstray r' r'' (taken-IsAstray r r' o start c valid fits t) run in
      (
        IsAstray-refuses r''.state next (position r'') first rest a e other,
        IsAstray-same r'' next first rest a e other,
      )
