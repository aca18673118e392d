-- ===== src/Fleet/Dispatcher/Refines.antt =====
-- The dispatcher does to the abstract progress on its plan what the plan says.
use mathlib.Core.Path.{ap₂}
use vda.Prelude.{
  ℕ, suc, ◌+◌, ◌-◌, ◌≤◌, ◌<◌, ◌≡◌, refl, some, none, List, [], ◌∷◌, length, arith, ap, ◌∙◌, sym,
  ltb, Bool-cases, inl, inr, true, false,
}
use vda.Prelude.Int.{pos, ◌+ℤ◌, leb_ℤ}
use vda.Prelude.Text.{str_eq, eq_iff}
use vda.Models.Order.{Node, Edge}
use vda.Validation.Weave.{Connects}
use vda.Fleet.Dispatcher.{
  Dispatcher, released_node, released_edge, start, extend_if_needed, release, build_order,
  clamp_end, last_index, next_index,
}
use vda.Fleet.Dispatcher.Plan.{Plan, Progress, Represents, window, at_most, begin, send_next, mark}
use vda.Fleet.Dispatcher.Marking.{length-mark}
use vda.Fleet.Dispatcher.Steps.{pos-+ℤ, release_lem, build_order_lem, clamp_end_lem}

module _ {F : Type 0} where
  -- There is an edge for each node but the first.
  length-Connects :
      (n : Node F) (ns : List (Node F)) (es : List (Edge F))
      → Connects n ns es
      → length es ≡ length ns
  length-Connects n [] [] c = refl
  length-Connects n [] (e ∷ es) c = absurd c
  length-Connects n (m ∷ ns) [] c = absurd c
  length-Connects n (m ∷ ns) (e ∷ es) (j, c) = ap suc (length-Connects m ns es c)

  -- The dispatcher is new, for this plan.
  pub record IsNew (p : Plan F) (d : Dispatcher F) : Type 0 where
    pub same_id : d.order_id ≡ p.order_id
    pub same_nodes : d.nodes ≡ p.first ∷ p.rest
    pub same_edges : d.edges ≡ p.edges

  abbrev released_to : Plan F → Dispatcher F → ℕ → Dispatcher F
  released_to p d t = record d {
    nodes = mark released_node (suc t) (p.first ∷ p.rest);
    edges = mark released_edge t p.edges;
  }

  window_lem :
      (p : Plan F) (d : Dispatcher F) (i k t u : ℕ)
      → t ≡ i + k
      → d.order_id ≡ p.order_id
      → d.nodes ≡ mark released_node (suc t) (p.first ∷ p.rest)
      → d.edges ≡ mark released_edge t p.edges
      → t ≤ length p.rest
      → build_order d (pos i) (pos t) (pos u) ≡ some (window p i k u)
  window_lem p d i k t u e same en ee h =
      build_order_lem d (p.first ∷ p.rest) p.edges i k t u e en ee (omega arith)
        (omega (arith, length-Connects p.first p.rest p.edges p.joined))
      ∙ ap (λ id. some (record (window p i k u) { order_id = id })) same

  -- `Start` releases and sends the plan's first window.
  pub start-refines :
      (p : Plan F) (d : Dispatcher F)
      → IsNew p d
      → (d' : Dispatcher F) × (start d ≡ some (d', (begin p).1)) × Represents p (begin p).0 d'
  unfolding start
  start-refines p d new =
      let k = at_most 2 p 0 in
      let n = length p.rest in
      let ns = p.first ∷ p.rest in
      let edges_left : length p.edges ≡ n = length-Connects p.first p.rest p.edges p.joined in
      let end' : clamp_end d (pos 2) ≡ pos k =
        clamp_end_lem d [] [] n 2 (ap length new.same_nodes) ∙ ap pos (ground arith) in
      let k_le : k ≤ n = ground arith in
      let d' = released_to p d k in
      let released : release d 0 (pos k) ≡ some d' =
        release_lem d ns p.edges 0 k new.same_nodes new.same_edges (omega arith) (omega arith)
          (omega arith) in
      let order : build_order d' (pos 0) (pos k) (pos 0) ≡ some (window p 0 k 0) =
        window_lem p d' 0 k k 0 (omega arith) new.same_id refl refl k_le in
      (
        record d' { released_idx = pos k; next_update_id = pos 1 },
        rw (end', released, order),
        record {
          same_id = new.same_id;
          nodes_marked = refl;
          edges_marked = refl;
          same_index = refl;
          same_update = refl;
          within = k_le;
        },
      )

  last_index_lem : (d : Dispatcher F) (n : ℕ) → length d.nodes ≡ suc n → last_index d ≡ pos n
  last_index_lem d n e = ground arith

  length-Represents :
      (p : Plan F) (s : Progress) (d : Dispatcher F)
      → Represents p s d
      → length d.nodes ≡ suc (length p.rest)
  length-Represents p s d rep =
      ap length rep.nodes_marked ∙ length-mark released_node (suc s.reached) (p.first ∷ p.rest)

  extend_done :
      (p : Plan F) (s : Progress) (d : Dispatcher F)
      → Represents p s d
      → length p.rest ≤ s.reached
      → extend_if_needed d p.order_id ≡ some (d, none)
  unfolding extend_if_needed
  extend_done p s d rep h =
      let last = last_index_lem d (length p.rest) (length-Represents p s d rep) in
      ground (arith, eq_iff p.order_id d.order_id, last, rep)

  -- The dispatcher behind an extension by `k` nodes.
  abbrev extended : Plan F → Progress → ℕ → Dispatcher F → Dispatcher F
  extended p s k d = record (released_to p d (s.reached + k)) {
    released_idx = pos (s.reached + k);
    next_update_id = d.next_update_id +ℤ pos 1;
  }

  extend_on :
      (p : Plan F) (s : Progress) (d : Dispatcher F)
      → Represents p s d
      → 0 < at_most 3 p s.reached
      → extend_if_needed d p.order_id
        ≡ some (
          extended p s (at_most 3 p s.reached) d,
          some (window p s.reached (at_most 3 p s.reached) s.next_update),
        )
  unfolding extend_if_needed
  extend_on p s d rep h =
      let k = at_most 3 p s.reached in
      let t = s.reached + k in
      let within : t ≤ length p.rest = ground (arith, rep.within) in
      let last = last_index_lem d (length p.rest) (length-Represents p s d rep) in
      let end' : clamp_end d (d.released_idx +ℤ pos 3) ≡ pos t =
        ap (λ i. clamp_end d (i +ℤ pos 3)) rep.same_index
        ∙ ap (clamp_end d) (pos-+ℤ s.reached 3)
        ∙ clamp_end_lem d [] [] (length p.rest) (s.reached + 3) (length-Represents p s d rep)
        ∙ ap pos (ground (arith, rep.within)) in
      let edges_left : length p.edges ≡ length p.rest =
        length-Connects p.first p.rest p.edges p.joined in
      let d' = released_to p d t in
      let one_less : suc s.reached - 1 ≡ s.reached = omega arith in
      let marked : d.edges ≡ mark released_edge (suc s.reached - 1) p.edges =
        rw one_less rep.edges_marked in
      let released : release d (next_index d.released_idx) (pos t) ≡ some d' =
        ap (λ i. release d (next_index i) (pos t)) rep.same_index
        ∙ release_lem d (p.first ∷ p.rest) p.edges (suc s.reached) t rep.nodes_marked marked
            (omega arith) (omega arith) (omega arith) in
      let order : build_order d' d.released_idx (pos t) d.next_update_id
          ≡ some (window p s.reached k s.next_update) =
        ap₂ (λ i u. build_order d' i (pos t) u) rep.same_index rep.same_update
        ∙ window_lem p d' s.reached k t s.next_update refl rep.same_id refl refl within in
      let same : str_eq p.order_id d.order_id ≡ true = (eq_iff _ _).1 (sym rep.same_id) in
      let more : leb_ℤ (last_index d) d.released_idx ≡ false =
        ap₂ leb_ℤ last rep.same_index ∙ ground arith in
      rw (same, more, end', released, order)

  -- `ExtendIfNeeded` sends the plan's next window, or nothing where the plan is at its end.
  pub extend-refines :
      (p : Plan F) (s : Progress) (d : Dispatcher F)
      → Represents p s d
      → (d' : Dispatcher F) × (extend_if_needed d p.order_id ≡ some (d', (send_next p s).1))
        × Represents p (send_next p s).0 d'
  extend-refines p s d rep = elim (Bool-cases (ltb 0 (at_most 3 p s.reached))) [
    | inl e ↦ rw e (
      extended p s (at_most 3 p s.reached) d,
      extend_on p s d rep (ground arith),
      record {
        same_id = rep.same_id;
        nodes_marked = refl;
        edges_marked = refl;
        same_index = refl;
        same_update =
            ap (λ u. u +ℤ pos 1) rep.same_update ∙ pos-+ℤ s.next_update 1 ∙ ap pos (omega arith);
        within = ground (arith, rep.within);
      },
    )
    | inr e ↦ rw e (d, extend_done p s d rep (ground (arith, rep.within)), rep)
  ]
