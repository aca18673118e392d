-- ===== src/Fleet/Dispatcher/Demo.antt =====
-- `demoRoute` gives a plan.
use vda.Prelude.{ℕ, zero, suc, ◌+◌, ◌*◌, ◌≡◌, refl, false, ◌∷◌, arith, ap, some, sym, ◌∙◌}
use vda.Prelude.Int.{pos, rem}
use vda.Prelude.Text.{String}
use vda.Geometry.{Float64}
use vda.Models.Order.{Node}
use vda.Validation.Weave.{Connects}
use vda.Fleet.Experiments.{demo_node, demo_edge}
use vda.Fleet.Dispatcher.{route_id, route_nodes, route_edges, demo_route}
use vda.Fleet.Dispatcher.Steps.{pos-+ℤ}
use vda.Fleet.Dispatcher.Plan.{Plan}

module _ {F : Type 0} ⦃fl : Float64 F⦄ where
  open fl use {lit, mul}

  -- The node of the route with this index.
  unfoldable pub node_at : ℕ → Node F
  unfolding demo_node
  node_at i = demo_node (route_id i) (pos (2 * i)) false (mul (lit i 1) (lit 2 1)) (lit 0 1)

module _ (F : Type 0) ⦃fl : Float64 F⦄ where
  pub route-Connects :
      (k i : ℕ) → Connects (node_at {F = F} i) (route_nodes k (suc i)) (route_edges k i)
  unfolding node_at route_nodes route_edges demo_node demo_edge
  route-Connects zero i = tt
  route-Connects (suc k) i = (
    record {
      edge_next = sym (pos-+ℤ (2 * i) 1);
      node_next = ap pos (omega arith) ∙ sym (pos-+ℤ (2 * i + 1) 1);
      from_start = refl;
      to_end = refl;
    },
    route-Connects k (suc i),
  )

module _ {F : Type 0} ⦃fl : Float64 F⦄ where
  -- The plan of `demoRoute(n + 1)`.
  unfoldable pub demo_plan : String → ℕ → Plan F
  unfolding node_at demo_node rem
  demo_plan order_id n = record {
    order_id = order_id;
    first = node_at 0;
    rest = route_nodes n 1;
    edges = route_edges n 0;
    joined = route-Connects F n 0;
    even = refl;
  }

  demo_route-plan :
      (order_id : String) (n : ℕ)
      → let p = demo_plan order_id n in demo_route (suc n) ≡ some (p.first ∷ p.rest, p.edges)
  unfolding demo_route demo_plan node_at route_nodes
  demo_route-plan order_id n = refl
