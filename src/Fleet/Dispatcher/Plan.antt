-- ===== src/Fleet/Dispatcher/Plan.antt =====
-- The abstract view of a dispatcher: a route that is given once, how far it is released, and the number
-- of the next update. An order is a window of the route, all of it base.
use vda.Prelude.{
  ℕ, zero, suc, ◌+◌, ◌-◌, ◌≤◌, ◌≡◌, Option, none, some, List, [], ◌∷◌, map, take, drop, length, ltb,
  if◌then◌else◌,
}
use vda.Prelude.Int.{pos, IsEven}
use vda.Prelude.Text.{String}
use vda.Models.Order.{Node, Edge, Order}
use vda.Validation.Weave.{Connects}
use vda.Fleet.Experiments.{no_header}
use vda.Fleet.Dispatcher.{Dispatcher, released_node, released_edge}

pub record Plan (F : Type 0) : Type 0 where
  pub order_id : String
  pub first : Node F
  pub rest : List (Node F)
  pub edges : List (Edge F)
  pub joined : Connects first rest edges
  pub even : IsEven first.sequence_id

-- `reached` is the index of the last released node, the decision point.
pub record Progress : Type 0 where
  pub reached : ℕ
  pub next_update : ℕ

-- The first elements are released.
abbrev pub mark : {A : Type 0} → (A → A) → ℕ → List A → List A
mark release_one zero xs = xs
mark release_one (suc k) [] = []
mark release_one (suc k) (x ∷ xs) = release_one x ∷ mark release_one k xs

module _ {F : Type 0} where
  -- The order of the nodes from the index `i` to `i + k`.
  abbrev pub window : Plan F → ℕ → ℕ → ℕ → Order F
  window p i k update = record {
    header = no_header;
    order_id = p.order_id;
    order_update_id = pos update;
    order_description = "";
    nodes = map released_node (take (suc k) (drop i (p.first ∷ p.rest)));
    edges = map released_edge (take k (drop i p.edges));
  }

  -- How many nodes of at most `k` are left behind the index `i`.
  abbrev pub at_most : ℕ → Plan F → ℕ → ℕ
  at_most k p i = let left = length p.rest - i in if ltb left k then left else k

  abbrev pub begin : Plan F → Progress × Order F
  begin p = let k = at_most 2 p 0 in (record { reached = k; next_update = 1 }, window p 0 k 0)

  abbrev pub send_next : Plan F → Progress → Progress × Option (Order F)
  send_next p s =
      let k = at_most 3 p s.reached in
      if ltb 0 k
      then (
        record { reached = s.reached + k; next_update = suc s.next_update },
        some (window p s.reached k s.next_update),
      )
      else (s, none)

  -- The dispatcher stands at this progress on the plan.
  pub record Represents (p : Plan F) (s : Progress) (d : Dispatcher F) : Type 0 where
    pub same_id : d.order_id ≡ p.order_id
    pub nodes_marked : d.nodes ≡ mark released_node (suc s.reached) (p.first ∷ p.rest)
    pub edges_marked : d.edges ≡ mark released_edge s.reached p.edges
    pub same_index : d.released_idx ≡ pos s.reached
    pub same_update : d.next_update_id ≡ pos s.next_update
    pub within : s.reached ≤ length p.rest
