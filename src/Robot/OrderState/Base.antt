-- ===== src/Robot/OrderState/Base.antt =====
-- Where `decisionPoint` ends on an order that lists a route in order, all of it base: at its last node.
use vda.Prelude.{◌≡◌, true, List, [], ◌∷◌, ◌∙◌}
use vda.Prelude.Int.{negsuc}
use vda.Models.Order.{Node, Edge, Order}
use vda.Validation.Weave.{Connects, AllReleased, IsBase, weave, sort_slice-weave, last_of}
use vda.Validation.Sorting.{Sequence, of_node, of_edge}
use vda.Robot.OrderState.Kept.{decide_end}
use vda.Robot.OrderState.{decide_from, decision_point}
use vda.Robot.OrderState.Sound.{decide_base}

module _ {F : Type 0} where
  decide_step :
      (n : Node F) (e : Edge F) (m : Node F) (rest : List (Sequence F))
      → e.released ≡ true
      → m.released ≡ true
      → decide_from n.node_id n.sequence_id (of_edge e ∷ of_node m ∷ rest)
        ≡ decide_from m.node_id m.sequence_id rest
  unfolding decide_from
  decide_step n e m rest re rm = rw (re, rm)

  decide-weave :
      (n : Node F) (ns : List (Node F)) (es : List (Edge F))
      → Connects n ns es
      → AllReleased (n ∷ ns) es
      → decide_from n.node_id n.sequence_id (weave ns es)
        ≡ ((last_of n ns).node_id, (last_of n ns).sequence_id)
  decide-weave n [] [] c r = decide_end n
  decide-weave n [] (e ∷ es) c r = absurd c
  decide-weave n (m ∷ ns) [] c r = absurd c
  decide-weave n (m ∷ ns) (e ∷ es) (j, c) ((rn, (rm, rns)), (re, res)) =
      decide_step n e m (weave ns es) re rm ∙ decide-weave m ns es c ((rm, rns), res)

  pub decision_point-IsBase :
      (o : Order F) (b : IsBase o)
      → decision_point o.nodes o.edges
        ≡ ((last_of b.first b.rest).node_id, (last_of b.first b.rest).sequence_id)
  unfolding decision_point
  decision_point-IsBase o b =
      rw (b.nodes_are, sort_slice-weave b.first b.rest o.edges b.joined)
        (decide_base "" (negsuc 0) b.first (weave b.rest o.edges) b.base.0.0
          ∙ decide-weave b.first b.rest o.edges b.joined b.base)
