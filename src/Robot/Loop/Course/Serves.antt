-- ===== src/Robot/Loop/Course/Serves.antt =====
-- What a round of the drive's loop relies on, and its accesses.
use vda.Prelude.{
  ℕ, suc, zero, ◌<◌, ◌≡◌, ◌≢◌, ◌⊎◌, refl, sym, ◌∙◌, inl, inr, false, some, List, [], ◌∷◌, arith,
  length, Bool-cases, Option-cases, All, All-append_left, All-of_map, map, get_elem?,
}
use vda.Prelude.Text.{String, str_eq, eq_iff}
use vda.Prelude.Int.{negsuc, IsEven}
use vda.Geometry.{Float64, inside_deviation_ellipse}
use vda.Models.Order.{Node}
use vda.Validation.{sequence_of}
use vda.Validation.Sorting.{of_node, of_edge}
use vda.Validation.Numbers.{HasParity, IsRoute-parity, sort_slice-All_of}
use vda.Sim
use vda.Sim.{Simulator, can_drive}
use vda.Robot.OrderState.{OrderState}
use vda.Robot.OrderState.Sound.{IsSound, not_undecided}
use vda.Robot.Main.{Robot, on_tick, sequence_id_in, sequence_id_for}
use vda.Robot.Loop.{Pc, checking, blocked, ticking, gating, looked, stepping, arrived}
use vda.Robot.Loop.Course.{Follows, OnCourse, Alike, Alike-OnCourse}

module _ {F : Type 0} where
  -- What the rest of a round of the loop relies on: an edge at the drive's index, or that the order's graph
  -- has the node at which the drive has arrived.
  abbrev pub Serves : Robot F → Pc → Type 0
  Serves r checking = Unit {0}
  Serves r blocked = Unit {0}
  Serves r (arrived id) = (id ≡ "") ⊎ (sequence_id_in id r.state.nodes ≢ negsuc 0)
  Serves r _ = (m : Simulator F) → r.simulator ≡ some m → m.edge_idx < length m.edges

  -- The robot is on course, with what the rest of the round relies on.
  pub record Steady (r : Robot F) (pc : Pc) : Type 0 where
    pub course : OnCourse r
    pub serves : Serves r pc

  Alike-Serves : (r r' : Robot F) (pc : Pc) → Alike r r' → Serves r pc → Serves r' pc
  Alike-Serves r r' checking a h = tt
  Alike-Serves r r' blocked a h = tt
  Alike-Serves r r' ticking (drive, (p, s)) h = λ m e. h m (sym drive ∙ e)
  Alike-Serves r r' gating (drive, (p, s)) h = λ m e. h m (sym drive ∙ e)
  Alike-Serves r r' (looked paused) (drive, (p, s)) h = λ m e. h m (sym drive ∙ e)
  Alike-Serves r r' stepping (drive, (p, s)) h = λ m e. h m (sym drive ∙ e)
  Alike-Serves r r' (arrived id) (drive, (p, s)) h = rw s h

  pub Alike-Steady : (r r' : Robot F) (pc : Pc) → Alike r r' → Steady r pc → Steady r' pc
  Alike-Steady r r' pc a h = record {
    course = Alike-OnCourse r r' a h.course;
    serves = Alike-Serves r r' pc a h.serves;
  }

  nodes-IsEven : (s : OrderState F) → IsSound s → All (λ n. IsEven n.sequence_id) s.nodes
  nodes-IsEven s h = All-of_map HasParity of_node s.nodes (
      All-append_left HasParity (map of_node s.nodes) (map of_edge s.edges)
        (sort_slice-All_of HasParity (sequence_of s.nodes s.edges) (IsRoute-parity _ h.route)))

  found-IsEven :
      (id : String) (ns : List (Node F))
      → All (λ n. IsEven n.sequence_id) ns
      → sequence_id_in id ns ≢ negsuc 0
      → IsEven (sequence_id_in id ns)
  unfolding sequence_id_for
  found-IsEven id [] h found = absurd (found refl)
  found-IsEven id (n ∷ ns) (h, hs) found = elim (Bool-cases (str_eq n.node_id id)) [
    | inl e ↦ rw e h
    | inr e ↦ rw e (found-IsEven id ns hs (λ q. found (rw e q)))
  ]

  listed-found :
      (i : ℕ) (n : Node F) (ns : List (Node F))
      → All (λ n. IsEven n.sequence_id) ns
      → get_elem? ns i ≡ some n
      → sequence_id_in n.node_id ns ≢ negsuc 0
  unfolding sequence_id_for
  listed-found i n [] h e = absurd (cc)
  listed-found zero n (m ∷ ns) (h, hs) e =
      let same : m ≡ n = cc in
      ground (arith, eq_iff m.node_id n.node_id, not_undecided m.sequence_id h)
  listed-found (suc i) n (m ∷ ns) (h, hs) e = elim (Bool-cases (str_eq m.node_id n.node_id)) [
    | inl q ↦ rw q (λ k. not_undecided m.sequence_id h (sym k))
    | inr q ↦ rw q (listed-found i n ns hs e)
  ]

module _ {F : Type 0} ⦃fl : Float64 F⦄ where
  pub step-Serves :
      (r : Robot F) (m m' : Simulator F) (id : String)
      → Follows m r.state
      → Sim.step m ≡ some (m', id)
      → (id ≡ "") ⊎ (sequence_id_in id r.state.nodes ≢ negsuc 0)
  unfolding Sim.step
  step-Serves r m m' id f e = elim (Option-cases (get_elem? m.edges m.edge_idx)) [
    | inl out ↦ absurd (ground arith)
    | inr (edge, q) ↦ elim (Option-cases (get_elem? m.nodes (suc m.edge_idx))) [
      | inl out ↦ absurd (ground arith)
      | inr (target, t) ↦
          let found =
            listed-found (suc m.edge_idx) target r.state.nodes (nodes-IsEven r.state f.sound)
              (rw (← f.same_nodes) t) in
          elim (Bool-cases (inside_deviation_ellipse m.position target.node_position)) [
            | inl near ↦ let here : id ≡ target.node_id = ground arith in inr (rw here found)
            | inr far ↦ inl (ground arith)
          ]
    ]
  ]

  after_tick :
      (r : Robot F) (id : String) (m : Simulator F)
      → str_eq id "" ≡ false
      → Follows m r.state
      → Serves r (arrived id)
      → Follows m
          (record r.state { last_node_id = id; last_node_sequence_id = sequence_id_for r id })
  unfolding sequence_id_for
  after_tick r id m e f (inl q) = absurd (ground (arith, eq_iff id ""))
  after_tick r id m e f (inr found) = record {
    same_nodes = f.same_nodes;
    same_edges = f.same_edges;
    longer = f.longer;
    sound = record {
      route = f.sound.route;
      decided = f.sound.decided;
      on_node = found-IsEven id r.state.nodes (nodes-IsEven r.state f.sound) found;
    };
  }

  pub on_tick-OnCourse :
      (r : Robot F) (id : String) → OnCourse r → Serves r (arrived id) → OnCourse (on_tick r id)
  unfolding on_tick
  on_tick-OnCourse r id h s = elim (Bool-cases (str_eq id "")) [
    | inl e ↦ rw e h
    | inr e ↦ elim h [
      | inl (rests, i) ↦ rw e (inl (rests, i))
      | inr (m, drives, f) ↦ rw e (inr (m, drives, after_tick r id m e f s))
    ]
  ]
