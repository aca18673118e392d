-- ===== src/Fleet/Dispatcher.antt =====
-- fleet/dispatcher.go: a full route, released to a robot window by window. `none` is a panic: an index
-- or a slice bound out of range. What is published is returned as an order; its header is set then.
pub mod Plan
pub mod Marking
mod Steps
pub mod Refines
pub mod Windows
pub mod Demo
use mathlib.Core.Option
use vda.Prelude.{
  ℕ, zero, suc, ◌+◌, ◌-◌, ◌*◌, Bool, true, false, not, ◌||◌, Option, none, some, List, [], ◌∷◌,
  length, take, drop, if◌then◌else◌, ◌>>=◌,
}
use vda.Prelude.Int.{ℤ, pos, negsuc, ◌+ℤ◌, pos_part, neg_part, sub_ℕ, ltb_ℤ, leb_ℤ}
use vda.Prelude.Text.{String, ◌<>◌, str_eq, itoa_ℕ}
use vda.Geometry.{Float64}
use vda.Models.Order.{Node, Edge, Order}
use vda.Fleet.Experiments.{no_header, demo_node, demo_edge}

abbrev pub release_window : ℤ
release_window = pos 3

pub record Dispatcher (F : Type 0) : Type 0 where
  pub manufacturer : String
  pub serial_number : String
  pub order_id : String
  pub next_update_id : ℤ
  pub nodes : List (Node F)
  pub edges : List (Edge F)
  pub released_idx : ℤ

-- How often `for i := from; i < to; i++` runs.
abbrev pub rounds : ℤ → ℤ → ℕ
rounds from to = (pos_part to + neg_part from) - (pos_part from + neg_part to)

-- `xs[from:to]`.
unfoldable pub slice : {A : Type 0} → List A → ℤ → ℤ → Option (List A)
slice xs from to =
    if ltb_ℤ from (pos 0) || ltb_ℤ to from || ltb_ℤ (pos (length xs)) to
    then none
    else some (take (rounds from to) (drop (pos_part from) xs))

-- `start + 1` for an index that is at least -1.
abbrev pub next_index : ℤ → ℕ
next_index (pos i) = suc i
next_index (negsuc i) = 0

module _ {A : Type 0} (release_one : A → A) where
  -- `xs[i].Released = true`, for nodes and for edges.
  pub release_at : List A → ℕ → Option (List A)
  release_at [] i = none
  release_at (x ∷ xs) zero = some (release_one x ∷ xs)
  release_at (x ∷ xs) (suc i) = Option.map (λ xs'. x ∷ xs') (release_at xs i)

  -- The loops of `release`, by the rounds that are left.
  unfoldable pub release_range : ℕ → ℕ → List A → Option (List A)
  unfolding release_at
  release_range zero i xs = some xs
  release_range (suc k) i xs = release_at xs i >>= λ xs'. release_range k (suc i) xs'

module _ {F : Type 0} where
  unfoldable pub new_dispatcher :
      String → String → String → List (Node F) → List (Edge F) → Dispatcher F
  new_dispatcher manufacturer serial_number order_id nodes edges = record {
    manufacturer = manufacturer;
    serial_number = serial_number;
    order_id = order_id;
    next_update_id = pos 0;
    nodes = nodes;
    edges = edges;
    released_idx = negsuc 0;
  }

  -- `len(d.nodes) - 1`.
  abbrev pub last_index : Dispatcher F → ℤ
  last_index d = sub_ℕ (length d.nodes) 1

  unfoldable pub clamp_end : Dispatcher F → ℤ → ℤ
  clamp_end d end' = if ltb_ℤ (last_index d) end' then last_index d else end'

  abbrev pub released_node : Node F → Node F
  released_node n = record n { released = true }

  abbrev pub released_edge : Edge F → Edge F
  released_edge e = record e { released = true }

  -- `from` is 0 or the successor of an index, so it is not negative, and `edgeFrom` is `from - 1`
  -- that stops at 0.
  unfoldable pub release : Dispatcher F → ℕ → ℤ → Option (Dispatcher F)
  release d from to =
      release_range released_node (rounds (pos from) (to +ℤ pos 1)) from d.nodes >>= λ ns.
      release_range released_edge (rounds (pos (from - 1)) to) (from - 1) d.edges >>= λ es.
      some (record d { nodes = ns; edges = es })

  -- No edges are copied unless `end > start`.
  abbrev pub edges_between : Dispatcher F → ℤ → ℤ → Option (List (Edge F))
  edges_between d start' end' = if ltb_ℤ start' end' then slice d.edges start' end' else some []

  unfoldable pub build_order : Dispatcher F → ℤ → ℤ → ℤ → Option (Order F)
  build_order d start' end' update_id = slice d.nodes start' (end' +ℤ pos 1) >>= λ ns.
      edges_between d start' end' >>= λ es. some (record {
        header = no_header;
        order_id = d.order_id;
        order_update_id = update_id;
        order_description = "";
        nodes = ns;
        edges = es;
      })

  unfoldable pub start : Dispatcher F → Option (Dispatcher F × Order F)
  start d =
      let end' = clamp_end d (pos 2) in
      release d 0 end' >>= λ d'. build_order d' (pos 0) end' (pos 0) >>= λ order.
      some (record d' { released_idx = end'; next_update_id = pos 1 }, order)

  -- `none` in the second component: nothing is published.
  unfoldable pub extend_if_needed : Dispatcher F → String → Option (Dispatcher F × Option (Order F))
  extend_if_needed d order_id =
      if not (str_eq order_id d.order_id)
      then some (d, none)
      else if leb_ℤ (last_index d) d.released_idx
      then some (d, none)
      else (let start' = d.released_idx in
          let end' = clamp_end d (d.released_idx +ℤ release_window) in
          release d (next_index start') end' >>= λ d'.
          build_order d' start' end' d'.next_update_id >>= λ order. some (
            record d' { released_idx = end'; next_update_id = d'.next_update_id +ℤ pos 1 },
            some order,
          ))

abbrev pub route_id : ℕ → String
route_id i = "r_" <> itoa_ℕ i

module _ {F : Type 0} ⦃fl : Float64 F⦄ where
  open fl use {lit, mul}

  -- The loops of `demoRoute` from the index `i`.
  unfoldable pub route_nodes : ℕ → ℕ → List (Node F)
  unfolding demo_node
  route_nodes zero i = []
  route_nodes (suc k) i =
      demo_node (route_id i) (pos (2 * i)) false (mul (lit i 1) (lit 2 1)) (lit 0 1)
      ∷ route_nodes k (suc i)

  unfoldable pub route_edges : ℕ → ℕ → List (Edge F)
  unfolding demo_edge
  route_edges zero i = []
  route_edges (suc k) i =
      demo_edge ("re_" <> itoa_ℕ i) (pos (2 * i + 1)) (route_id i) (route_id (suc i)) false
      ∷ route_edges k (suc i)

  -- Of 0 nodes it panics, since the number of edges is -1.
  unfoldable pub demo_route : ℕ → Option (List (Node F) × List (Edge F))
  unfolding route_nodes route_edges
  demo_route zero = none
  demo_route (suc n) = some (route_nodes (suc n) 0, route_edges n 0)
