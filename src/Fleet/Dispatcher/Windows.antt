-- ===== src/Fleet/Dispatcher/Windows.antt =====
-- The windows of a plan are orders that list a route in order, all of it base.
use vda.Prelude.{
  ℕ, zero, suc, ◌+◌, ◌≤◌, ◌≡◌, refl, some, List, [], ◌∷◌, map, take, drop, length, get_elem?, arith,
  ap, ◌∙◌, sym, All, true,
}
use vda.Prelude.Int.{pos, IsEven, rem-two, +ℤ_parts}
use vda.Models.Order.{Node, Edge}
use vda.Validation.Weave.{Joined, Connects, IsBase, last_of}
use vda.Fleet.Dispatcher.{released_node, released_edge}
use vda.Fleet.Dispatcher.Plan.{Plan, window}

get_elem?-drop :
    {A : Type 0} (xs : List A) (i k j : ℕ) → j ≡ i + k → get_elem? (drop i xs) k ≡ get_elem? xs j
get_elem?-drop xs zero k j e = let same : j ≡ k = omega arith in rw same
get_elem?-drop [] (suc i) k j e = refl
get_elem?-drop (x ∷ xs) (suc i) k zero e = absurd (omega arith)
get_elem?-drop (x ∷ xs) (suc i) k (suc j) e = get_elem?-drop xs i k j (omega arith)

module _ {F : Type 0} where
  Joined-IsEven :
      (n : Node F) (e : Edge F) (m : Node F)
      → Joined n e m
      → IsEven n.sequence_id
      → IsEven m.sequence_id
  Joined-IsEven n e m j even = ground (
    arith,
    j,
    rem-two n.sequence_id,
    rem-two m.sequence_id,
    +ℤ_parts n.sequence_id (pos 1),
    +ℤ_parts e.sequence_id (pos 1),
  )

  -- A route from one of its nodes on.
  pub record Onward (n : Node F) (ns : List (Node F)) (es : List (Edge F)) (i : ℕ) : Type 0 where
    pub node : Node F
    pub rest : List (Node F)
    pub nodes_are : drop i (n ∷ ns) ≡ node ∷ rest
    pub joined : Connects node rest (drop i es)
    pub even : IsEven node.sequence_id
    pub left : length rest + i ≡ length ns
    pub here : get_elem? (n ∷ ns) i ≡ some node

  pub onward :
      (n : Node F) (ns : List (Node F)) (es : List (Edge F)) (i : ℕ)
      → Connects n ns es
      → IsEven n.sequence_id
      → i ≤ length ns
      → Onward n ns es i
  onward n ns es zero c even h = record {
    node = n;
    rest = ns;
    nodes_are = refl;
    joined = c;
    even = even;
    left = omega arith;
    here = refl;
  }
  onward n [] es (suc i) c even h = absurd (omega arith)
  onward n (m ∷ ns) [] (suc i) c even h = absurd c
  onward n (m ∷ ns) (e ∷ es) (suc i) (j, c) even h =
      let o = onward m ns es i c (Joined-IsEven n e m j even) (omega arith) in
      record {
        node = o.node;
        rest = o.rest;
        nodes_are = o.nodes_are;
        joined = o.joined;
        even = o.even;
        left = omega (arith, o.left);
        here = o.here;
      }

  Connects-take :
      (k : ℕ) (n : Node F) (ns : List (Node F)) (es : List (Edge F))
      → Connects n ns es
      → Connects n (take k ns) (take k es)
  Connects-take zero n ns es c = tt
  Connects-take (suc k) n [] [] c = tt
  Connects-take (suc k) n [] (e ∷ es) c = absurd c
  Connects-take (suc k) n (m ∷ ns) [] c = absurd c
  Connects-take (suc k) n (m ∷ ns) (e ∷ es) (j, c) = (j, Connects-take k m ns es c)

  Connects-released :
      (n : Node F) (ns : List (Node F)) (es : List (Edge F))
      → Connects n ns es
      → Connects (released_node n) (map released_node ns) (map released_edge es)
  Connects-released n [] [] c = tt
  Connects-released n [] (e ∷ es) c = absurd c
  Connects-released n (m ∷ ns) [] c = absurd c
  Connects-released n (m ∷ ns) (e ∷ es) (j, c) = (
    record {
      edge_next = j.edge_next;
      node_next = j.node_next;
      from_start = j.from_start;
      to_end = j.to_end;
    },
    Connects-released m ns es c,
  )

  pub nodes_released : (ns : List (Node F)) → All (λ n. n.released ≡ true) (map released_node ns)
  nodes_released [] = tt
  nodes_released (n ∷ ns) = (refl, nodes_released ns)

  edges_released : (es : List (Edge F)) → All (λ e. e.released ≡ true) (map released_edge es)
  edges_released [] = tt
  edges_released (e ∷ es) = (refl, edges_released es)

  -- The node at an index behind one of the route.
  last-take :
      (n : Node F) (ns : List (Node F)) (k : ℕ)
      → k ≤ length ns
      → (m : Node F) × (get_elem? (n ∷ ns) k ≡ some m)
        × (last_of (released_node n) (map released_node (take k ns)) ≡ released_node m)
  last-take n ns zero h = (n, refl, refl)
  last-take n [] (suc k) h = absurd (omega arith)
  last-take n (m ∷ ns) (suc k) h = last-take m ns k (omega arith)

  -- A window of a plan between two of its nodes.
  pub record IsWindow (p : Plan F) (i k u : ℕ) : Type 0 where
    pub base : IsBase (window p i k u)
    pub from : Node F
    pub from_here : get_elem? (p.first ∷ p.rest) i ≡ some from
    pub first_is : base.first ≡ released_node from
    pub to : Node F
    pub to_here : get_elem? (p.first ∷ p.rest) (i + k) ≡ some to
    pub last_is : last_of base.first base.rest ≡ released_node to

  pub window_lem : (p : Plan F) (i k u : ℕ) → i + k ≤ length p.rest → IsWindow p i k u
  window_lem p i k u h =
      let o = onward p.first p.rest p.edges i p.joined p.even (omega arith) in
      let (to, there, last) = last-take o.node o.rest k (omega (arith, o.left)) in
      record {
        base = record {
          first = released_node o.node;
          rest = map released_node (take k o.rest);
          nodes_are = ap (λ xs. map released_node (take (suc k) xs)) o.nodes_are;
          joined =
              Connects-released o.node (take k o.rest) (take k (drop i p.edges))
                (Connects-take k o.node o.rest (drop i p.edges) o.joined);
          even = o.even;
          base = (
            nodes_released (take (suc k) (o.node ∷ o.rest)),
            edges_released (take k (drop i p.edges)),
          );
        };
        from = o.node;
        from_here = o.here;
        first_is = refl;
        to = to;
        to_here =
            sym (get_elem?-drop (p.first ∷ p.rest) i k (i + k) refl)
            ∙ ap (λ xs. get_elem? xs k) o.nodes_are
            ∙ there;
        last_is = last;
      }
