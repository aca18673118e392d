-- ===== src/Robot/OrderState/Sound.antt =====
-- What holds of an order state that the robot drives, and what of its graph leads to an update.
use vda.Prelude.{
  ◌≡◌, refl, ◌≢◌, true, false, List, [], ◌∷◌, ◌++◌, arith, keep, All, All-map, All-both, Bool-cases,
  inl, inr, ap, ◌∙◌, sym,
}
use vda.Prelude.Int.{ℤ, negsuc, ◌<ℤ◌, ◌≤ℤ◌, IsEven, rem, eqb_ℤ_iff}
use vda.Prelude.Text.{String}
use vda.Models.Order.{Node, Order}
use vda.Validation.Sorting.{Sequence, of_node, of_edge, sequence_id, is_released, sort_slice}
use vda.Validation.Route.{RouteFrom, IsRoute}
use vda.Validation.Numbers.{HasParity, IsRoute-parity}
use vda.Validation.{sequence_of}
use vda.Robot.OrderState.{OrderState, decide_from, decision_point}
use vda.Robot.OrderState.Kept.{keeps, released-le-decision}
use vda.Robot.OrderState.Stitching.{kept-IsRoute}

-- The number -1, which `decisionPoint` returns for want of a released node, is no node's.
pub not_undecided : (d : ℤ) → IsEven d → negsuc 0 ≢ d
not_undecided d even e = odd (rw (sym e) at even)
  where
    odd : ¬ IsEven (negsuc 0)
    odd h = unfold rem in cc

pub decide_none : (F : Type 0) (id : String) (q : ℤ) → decide_from {F = F} id q [] ≡ (id, q)
unfolding decide_from
decide_none F id q = refl

module _ {F : Type 0} where
  -- What holds of an order that the robot drives: its graph is a route, the stored decision point is
  -- that of the graph, and the last node has the number of a node.
  pub record IsSound (s : OrderState F) : Type 0 where
    pub route : IsRoute (sort_slice (sequence_of s.nodes s.edges))
    pub decided : decision_point s.nodes s.edges ≡ (s.decision_node_id, s.decision_sequence_id)
    pub on_node : IsEven s.last_node_sequence_id

  -- The order starts in the released node `first`, and goes on as a route.
  pub record StartsIn (o : Order F) (first : Node F) (tail : List (Sequence F)) : Type 0 where
    pub sorted : sort_slice (sequence_of o.nodes o.edges) ≡ of_node first ∷ tail
    pub base : first.released ≡ true
    pub even : IsEven first.sequence_id
    pub goes : RouteFrom first tail

  pub decide_base :
      (id : String) (q : ℤ) (n : Node F) (rest : List (Sequence F))
      → n.released ≡ true
      → decide_from id q (of_node n ∷ rest) ≡ decide_from n.node_id n.sequence_id rest
  unfolding decide_from
  decide_base id q n rest u = rw u

  pub decide_horizon :
      (id : String) (q : ℤ) (n : Node F) (rest : List (Sequence F))
      → n.released ≡ false
      → decide_from id q (of_node n ∷ rest) ≡ (id, q)
  unfolding decide_from
  decide_horizon id q n rest u = rw u

  -- Released elements in front of a released node leave the decision to what follows.
  pub decide_skip :
      (id id' : String) (q q' : ℤ) (ks : List (Sequence F)) (first : Node F)
      (tail : List (Sequence F))
      → All (λ s. is_released s ≡ true) ks
      → first.released ≡ true
      → decide_from id q (ks ++ (of_node first ∷ tail)) ≡ decide_from id' q' (of_node first ∷ tail)
  unfolding decide_from
  decide_skip id id' q q' [] first tail u b = rw b
  decide_skip id id' q q' (of_node n ∷ ks) first tail (u, us) b =
      rw u (decide_skip n.node_id id' n.sequence_id q' ks first tail us b)
  decide_skip id id' q q' (of_edge e ∷ ks) first tail (u, us) b =
      rw u (decide_skip id id' q q' ks first tail us b)

  pub keeps-released : (last d : ℤ) (s : Sequence F) → keeps last d s ≡ true → is_released s ≡ true
  keeps-released last d (of_node n) h = ground arith
  keeps-released last d (of_edge e) h = ground arith

  pub keeps-lt :
      (last d : ℤ) (s : Sequence F)
      → IsEven d
      → HasParity s
      → (is_released s ≡ true → sequence_id s ≤ℤ d)
      → keeps last d s ≡ true
      → sequence_id s <ℤ d
  keeps-lt last d (of_node n) even p h k = ground (arith, eqb_ℤ_iff n.sequence_id d)
  keeps-lt last d (of_edge e) even p h k = ground (arith, eqb_ℤ_iff e.sequence_id d)

  abbrev pub Kept : Node F → List (Sequence F) → ℤ → List (Sequence F) → Type 0
  Kept first tail last ss =
      IsRoute (keep (keeps last first.sequence_id) ss ++ (of_node first ∷ tail))
      × All (λ s. keeps last first.sequence_id s ≡ true → sequence_id s <ℤ first.sequence_id) ss

  pub Kept-route :
      (o : Order F) (first : Node F) (tail : List (Sequence F)) (last : ℤ) (ss : List (Sequence F))
      → StartsIn o first tail
      → IsEven last
      → IsRoute ss
      → decide_from "" (negsuc 0) ss ≡ (first.node_id, first.sequence_id)
      → Kept first tail last ss
  Kept-route o first tail last [] st even r d = absurd (
      not_undecided first.sequence_id st.even
        (ap (λ p. p.1) (sym (decide_none F "" (negsuc 0)) ∙ d)))
  Kept-route o first tail last (of_edge e ∷ rest) st even r d = absurd r
  Kept-route o first tail last (of_node n ∷ rest) st even (even_n, r) d =
      elim (Bool-cases n.released) [
        | inl u ↦
            let d' = sym (decide_base "" (negsuc 0) n rest u) ∙ d in
            let le = released-le-decision n rest first.sequence_id (ap (λ p. p.1) d') u r in
            (
              kept-IsRoute first tail st.base st.goes last n rest st.even even even_n u r d',
              All-map (of_node n ∷ rest) (λ s (p, q). keeps-lt last first.sequence_id s st.even p q)
                  (All-both HasParity _ (of_node n ∷ rest)
                    (IsRoute-parity (of_node n ∷ rest) (even_n, r)) le),
            )
        | inr z ↦ absurd (
            not_undecided first.sequence_id st.even
              (ap (λ p. p.1) (sym (decide_horizon "" (negsuc 0) n rest z) ∙ d)))
      ]
