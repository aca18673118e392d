-- ===== src/Viewer/Drops.antt =====
-- Which orders the drop gate swallows.
use vda.Prelude.{
  Bool, true, false, Option, none, some, List, [], ◌∷◌, ◌≡◌, refl, ◌∙◌, sym, ap, inl, inr,
  if◌then◌else◌, arith, Option-cases,
}
use vda.Prelude.Text.{String, str_eq}
use vda.Topics.{topic_for, qos}
use vda.Mqtt.{Request, publish}
use vda.Viewer.{DropGate, HttpRequest, order_handler, consume}

module _ {B : Type 0} where
  -- What the handler publishes where no drop is armed.
  abbrev pub forwarded : HttpRequest B → Option (Request B)
  forwarded r =
      if str_eq r.method "POST"
      then (elim (topic_for r.manufacturer r.serial_number "order") [
        | inl e ↦ none
        | inr topic ↦ elim r.body [
          | inl e ↦ none
          | inr body ↦ some (publish topic (qos "order") false body)
        ]
      ])
      else none

  -- What the handler publishes for requests that come one after the other.
  unfoldable pub published :
      DropGate → List (Option String × HttpRequest B) → List (Option (Request B))
  published gate [] = []
  published gate ((token, r) ∷ rest) =
      let (gate', (call, _)) = order_handler token gate r in call ∷ published gate' rest

  -- The first call of the list is left out.
  pub without_first : List (Option (Request B)) → List (Option (Request B))
  without_first [] = []
  without_first (none ∷ rest) = none ∷ without_first rest
  without_first (some call ∷ rest) = none ∷ rest

  -- The call that the handler makes and the gate that it leaves.
  abbrev effect : DropGate → Option String → HttpRequest B → DropGate × Option (Request B)
  effect gate token r = let out = order_handler token gate r in (out.0, out.1.0)

  open_gate :
      (token : Option String) (r : HttpRequest B)
      → effect (record { armed = false }) token r ≡ (record { armed = false }, forwarded r)
  unfolding order_handler consume
  open_gate token r = ground arith

  armed_none :
      (token : Option String) (r : HttpRequest B)
      → forwarded r ≡ none
      → effect (record { armed = true }) token r ≡ (record { armed = true }, none)
  unfolding order_handler consume
  armed_none token r e = ground arith

  armed_some :
      (token : Option String) (r : HttpRequest B) (call : Request B)
      → forwarded r ≡ some call
      → effect (record { armed = true }) token r ≡ (record { armed = false }, none)
  unfolding order_handler consume
  armed_some token r call e = ground arith

  pub all_forwarded : List (Option String × HttpRequest B) → List (Option (Request B))
  all_forwarded [] = []
  all_forwarded ((token, r) ∷ rest) = forwarded r ∷ all_forwarded rest

  published_open :
      (requests : List (Option String × HttpRequest B))
      → published (record { armed = false }) requests ≡ all_forwarded requests
  unfolding published all_forwarded
  published_open [] = refl
  published_open ((token, r) ∷ rest) =
      ap (λ q. q.1 ∷ published q.0 rest) (open_gate token r)
      ∙ ap (λ l. forwarded r ∷ l) (published_open rest)

  -- While no drop is armed, each POST with a body and a valid robot is published; an armed drop leaves out
  -- the first of these and nothing else, whatever comes in between.
  pub published_lem :
      (armed : Bool) (requests : List (Option String × HttpRequest B))
      → published (record { armed = armed }) requests
        ≡ (if armed then without_first (all_forwarded requests) else all_forwarded requests)
  unfolding published all_forwarded without_first
  published_lem false requests = published_open requests
  published_lem true [] = refl
  published_lem true ((token, r) ∷ rest) = elim (Option-cases (forwarded r)) [
    | inl e ↦
        ap (λ q. q.1 ∷ published q.0 rest) (armed_none token r e)
        ∙ ap (λ l. none ∷ l) (published_lem true rest)
        ∙ ap (λ f. without_first (f ∷ all_forwarded rest)) (sym e)
    | inr (call, e) ↦
        ap (λ q. q.1 ∷ published q.0 rest) (armed_some token r call e)
        ∙ ap (λ l. none ∷ l) (published_open rest)
        ∙ ap (λ f. without_first (f ∷ all_forwarded rest)) (sym e)
  ]
