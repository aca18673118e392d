-- ===== src/Robot/Loop/Course.antt =====
-- The order state and the drive's chain side by side, through the handlers.
pub mod Serves
pub mod Rounds
pub mod Keeps
use vda.Prelude.{
  ℕ, Bool, false, ◌<◌, ◌≡◌, ◌≢◌, ◌⊎◌, refl, sym, ◌∙◌, ap, inl, inr, true, none, some, List, ◌∷◌,
  arith, length, head?, Bool-cases, Option-cases, All, All-append_left, map, get_elem?, Option,
}
use vda.Prelude.Text.{String, str_eq, eq_iff}
use vda.Prelude.Int.{IsEven}
use vda.Errors.{VdaError}
use vda.Geometry.{Float64}
use vda.Models.Action.{Action}
use vda.Models.Order.{Node, Order}
use vda.Models.State.{ActionState}
use vda.Validation.{validate_order, sequence_of}
use vda.Validation.Sorting.{Sequence, of_node, sort_slice}
use vda.Validation.Lengths.{route-lt}
use vda.Sim
use vda.Sim.{Simulator, place_of}
use vda.Robot.ActionEngine
use vda.Robot.ActionEngine.{Moment, Queue, action_states, retry, skip_retry}
use vda.Robot.OrderState.{OrderState}
use vda.Robot.OrderState.Sound.{IsSound}
use vda.Robot.AcceptOrder.{Verdict, accept_order}
use vda.Robot.AcceptOrder.Soundness.{accept_order-IsSound}
use vda.Robot.Main.{Robot, on_order, position, after_verdict, drive_on}
use vda.Robot.Main.Handler.{on_order-Handled, nodes_after, goes_on}
use vda.Robot.InstantActions.{apply_instant_action, resolve_target, string_param}
use vda.Robot.State.{engine_tick, equal_action_states}

module _ {F : Type 0} where
  -- The drive's chain is the order's graph, which has a node behind each edge.
  pub record Follows (m : Simulator F) (s : OrderState F) : Type 0 where
    pub same_nodes : m.nodes ≡ s.nodes
    pub same_edges : m.edges ≡ s.edges
    pub longer : length s.edges < length s.nodes
    pub sound : IsSound s

  -- No order yet and no drive, or a drive along the graph of a sound order.
  abbrev pub OnCourse : Robot F → Type 0
  OnCourse r =
      ((r.simulator ≡ none) × (r.state.order_id ≡ ""))
      ⊎ ((m : Simulator F) × (r.simulator ≡ some m) × Follows m r.state)

  -- The drive is the same, and of the order state all but the pause.
  abbrev pub Alike : Robot F → Robot F → Type 0
  Alike r r' =
      (r'.simulator ≡ r.simulator) × ((p : Bool) × (r'.state ≡ record r.state { paused = p }))

  pub Alike-OnCourse : (r r' : Robot F) → Alike r r' → OnCourse r → OnCourse r'
  Alike-OnCourse r r' (drive, (p, s)) (inl (e, i)) = inl (drive ∙ e, rw s i)
  Alike-OnCourse r r' (drive, (p, s)) (inr (m, e, f)) = inr (
    m,
    drive ∙ e,
    rw s (record {
      same_nodes = f.same_nodes;
      same_edges = f.same_edges;
      longer = f.longer;
      sound = record {
        route = f.sound.route;
        decided = f.sound.decided;
        on_node = f.sound.on_node;
      };
    }),
  )

  pub engine_tick-Alike :
      (at : ℕ → Moment) (r : Robot F) (last : List ActionState) → Alike r (engine_tick at r last).0
  unfolding engine_tick
  engine_tick-Alike at r last =
      elim (Bool-cases
        (equal_action_states (action_states (ActionEngine.advance at r.actions)) last)) [
          | inl e ↦ rw e (refl, (r.state.paused, refl))
          | inr e ↦ rw e (refl, (r.state.paused, refl))
        ]

  resolve-Alike :
      (method : String → Queue → Queue × Option VdaError) (missing : String) (r : Robot F)
      (a : Action)
      → Alike r (resolve_target method missing r a)
  unfolding resolve_target
  resolve-Alike method missing r a = (ground arith, (r.state.paused, ground arith))

  pub instant-Alike :
      (now : ℕ) (r : Robot F) (a : Action)
      → a.action_type ≢ "cancelOrder"
      → Alike r (apply_instant_action now r a)
  unfolding apply_instant_action
  instant-Alike now r a other =
      let uncancelled : str_eq a.action_type "cancelOrder" ≡ false =
        ground (arith, eq_iff a.action_type "cancelOrder") in
      elim (Bool-cases (str_eq a.action_type "startPause")) [
        | inl e ↦ rw (uncancelled, e) (refl, (true, refl))
        | inr e ↦ elim (Bool-cases (str_eq a.action_type "stopPause")) [
          | inl f ↦ rw (uncancelled, e, f) (refl, (false, refl))
          | inr f ↦ elim (Bool-cases (str_eq a.action_type "retry")) [
            | inl g ↦
                rw (uncancelled, e, f, g)
                  (resolve-Alike (λ target q. retry now target q)
                    "retry requires an actionId parameter" r a)
            | inr g ↦ elim (Bool-cases (str_eq a.action_type "skipRetry")) [
              | inl k ↦
                  rw (uncancelled, e, f, g, k)
                    (resolve-Alike (λ target q. skip_retry target q)
                      "skipRetry requires an actionId parameter" r a)
              | inr k ↦ rw (uncancelled, e, f, g, k) (refl, (r.state.paused, refl))
            ]
          ]
        ]
      ]

module _ {F : Type 0} ⦃fl : Float64 F⦄ where
  -- Where the handler of an accepted order leaves the drive.
  drive_on-Follows :
      (r : Robot F) (r' : Robot F)
      → drive_on r ≡ some r'
      → (m : Simulator F) × (r'.simulator ≡ some m)
        × (m.nodes ≡ r.state.nodes)
        × (m.edges ≡ r.state.edges)
        × (r'.state ≡ r.state)
  unfolding drive_on Sim.new_simulator Sim.extend
  drive_on-Follows r r' e = elim (Option-cases r.simulator) [
    | inr (m, q) ↦
        (Sim.extend m r.state.nodes r.state.edges, ground arith, refl, refl, ground arith)
    | inl q ↦ elim (Option-cases (head? r.state.nodes)) [
      | inl h ↦ absurd (ground arith)
      | inr (n, h) ↦ (
        record {
          nodes = r.state.nodes;
          edges = r.state.edges;
          edge_idx = 0;
          position = place_of n.node_position;
          wake = false;
        },
        ground arith,
        refl,
        refl,
        ground arith,
      )
    ]
  ]

  accepted-OnCourse :
      (r r' : Robot F) (v : Verdict F) (n : Node F)
      → v.accepted ≡ true
      → after_verdict r v ≡ some r'
      → IsSound v.state
      → head? v.state.nodes ≡ some n
      → OnCourse r'
  unfolding after_verdict
  accepted-OnCourse r r' v n a e sound h =
      let (m, d, ns, es, s) =
        drive_on-Follows (record r { state = v.state; dirty = true }) r' (ground arith) in
      inr (
        m,
        d,
        rw s (record {
          same_nodes = ns;
          same_edges = es;
          longer = route-lt v.state.nodes v.state.edges n sound.route h;
          sound = sound;
        }),
      )

  IsSound-for :
      (r : Robot F) (o : Order F)
      → OnCourse r
      → o.order_id ≢ ""
      → o.order_id ≡ r.state.order_id
      → IsSound r.state
  IsSound-for r o (inl (e, i)) named same = absurd (named (same ∙ i))
  IsSound-for r o (inr (m, e, f)) named same = f.sound

  pub on_order-OnCourse :
      (r r' : Robot F) (o : Order F) (first : Node F) (rest : List (Node F))
      (tail : List (Sequence F))
      → OnCourse r
      → o.order_id ≢ ""
      → o.nodes ≡ first ∷ rest
      → sort_slice (sequence_of o.nodes o.edges) ≡ of_node first ∷ tail
      → first.released ≡ true
      → on_order r o ≡ some r'
      → OnCourse r'
  on_order-OnCourse r r' o first rest tail h named e sorted base t =
      let (r'', t'', outcome) = on_order-Handled r o first rest e in
      elim outcome [
        | inl (why, same) ↦ let left : r ≡ r' = cc in rw (← left) h
        | inr (valid, (v, k, a, q)) ↦
            accepted-OnCourse r r' v (nodes_after r.state o (position r) v first rest e k a).0 a
              (sym (goes_on r o v valid k) ∙ t)
              (accept_order-IsSound r.state o (position r) v first rest tail
                (IsSound-for r o h named) valid e sorted base k a)
              (nodes_after r.state o (position r) v first rest e k a).1
      ]
