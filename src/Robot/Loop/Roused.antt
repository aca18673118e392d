-- ===== src/Robot/Loop/Roused.antt =====
-- What the handlers do to the drive.
use vda.Prelude.{
  ℕ, ◌≡◌, ◌⊎◌, refl, inl, inr, true, Option, none, some, List, arith, Bool-cases, Option-cases,
}
use vda.Prelude.Text.{String, str_eq}
use vda.Errors.{VdaError}
use vda.Geometry.{Float64}
use vda.Models.Action.{Action}
use vda.Models.Order.{Order}
use vda.Models.State.{ActionState}
use vda.Validation.{validate_order}
use vda.Sim
use vda.Sim.{Simulator, can_drive}
use vda.Robot.AcceptOrder.{Verdict, accept_order}
use vda.Robot.ActionEngine
use vda.Robot.ActionEngine.{Moment, Queue, action_states, driving_allowed, retry, skip_retry}
use vda.Robot.Main.{Robot, on_order, position, after_verdict, drive_on}
use vda.Robot.InstantActions.{apply_instant_action, resolve_target, cancel_order}
use vda.Robot.State.{engine_tick, equal_action_states}
use vda.Robot.Loop.{Handles, order, engine, instant}

module _ {F : Type 0} where
  -- The drive is as it was, or starts, or its channel is full.
  abbrev pub Rouses : Robot F → Robot F → Type 0
  Rouses r r' =
      (r'.simulator ≡ r.simulator)
      ⊎ ((r.simulator ≡ none) ⊎ ((m : Simulator F) × (r'.simulator ≡ some m) × (m.wake ≡ true)))

  engine_tick-Rouses :
      (at : ℕ → Moment) (r : Robot F) (last : List ActionState) → Rouses r (engine_tick at r last).0
  unfolding engine_tick
  engine_tick-Rouses at r last =
      elim (Bool-cases
        (equal_action_states (action_states (ActionEngine.advance at r.actions)) last)) [
          | inl e ↦ rw e (inl refl)
          | inr e ↦ rw e (inl refl)
        ]

  resolve-simulator :
      (method : String → Queue → Queue × Option VdaError) (missing : String) (r : Robot F)
      (a : Action)
      → (resolve_target method missing r a).simulator ≡ r.simulator
  unfolding resolve_target
  resolve-simulator method missing r a = ground arith

  cancel_order-Rouses : (r : Robot F) → Rouses r (cancel_order r)
  unfolding cancel_order Sim.extend
  cancel_order-Rouses r = elim (Option-cases r.simulator) [
    | inl e ↦ inr (inl e)
    | inr (m, e) ↦ rw e (inr (inr (_, refl, refl)))
  ]

  instant-Rouses : (now : ℕ) (r : Robot F) (a : Action) → Rouses r (apply_instant_action now r a)
  unfolding apply_instant_action
  instant-Rouses now r a = elim (Bool-cases (str_eq a.action_type "cancelOrder")) [
    | inl e ↦ rw e (cancel_order-Rouses r)
    | inr e ↦ inl (
        ground (
          arith,
          e,
          resolve-simulator (λ target q. retry now target q) "retry requires an actionId parameter"
              r a,
          resolve-simulator (λ target q. skip_retry target q)
              "skipRetry requires an actionId parameter" r a,
        ))
  ]

module _ {F : Type 0} ⦃fl : Float64 F⦄ where
  drive_on-Rouses : (r r' : Robot F) → drive_on r ≡ some r' → Rouses r r'
  unfolding drive_on Sim.extend
  drive_on-Rouses r r' e = elim (Option-cases r.simulator) [
    | inl q ↦ inr (inl q)
    | inr (m, q) ↦ inr (inr (Sim.extend m r.state.nodes r.state.edges, ground arith, refl))
  ]

  after_verdict-Rouses :
      (r r' : Robot F) (v : Verdict F) → after_verdict r v ≡ some r' → Rouses r r'
  unfolding after_verdict
  after_verdict-Rouses r r' v e = elim (Bool-cases v.accepted) [
    | inl a ↦ drive_on-Rouses (record r { state = v.state; dirty = true }) r' (ground arith)
    | inr a ↦ inl (ground arith)
  ]

  order-Rouses : (r r' : Robot F) (o : Order F) → on_order r o ≡ some r' → Rouses r r'
  unfolding on_order
  order-Rouses r r' o e = elim (Option-cases (validate_order o)) [
    | inr (x, bad) ↦ inl (ground arith)
    | inl valid ↦ elim (Option-cases (accept_order r.state o (position r))) [
      | inl h ↦ absurd (ground arith)
      | inr (v, h) ↦ after_verdict-Rouses r r' v (ground arith)
    ]
  ]

  pub Handles-Rouses : (r r' : Robot F) → Handles r r' → Rouses r r'
  Handles-Rouses r r' (order o e) = order-Rouses r r' o e
  Handles-Rouses r _ (engine at last) = engine_tick-Rouses at r last
  Handles-Rouses r _ (instant now a) = instant-Rouses now r a
