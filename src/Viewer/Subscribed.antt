-- ===== src/Viewer/Subscribed.antt =====
-- Which messages reach the viewer.
use vda.Prelude.{
  Bool, true, false, none, List, [], ◌∷◌, ◌++◌, ◌≡◌, refl, ◌∙◌, sym, ap, ◌⊎◌, inl, inr, arith, All,
}
use vda.Prelude.Text.{String, codes}
use vda.Topics.{
  topic_for, wildcard_for, qos, validate_topic_name, join_slash, interface_name, major_version,
}
use vda.Topics.Levels.{levels}
use vda.Topics.Names.{Mem}
use vda.Topics.Subscriptions.{Covers, wildcard_for_on, wildcard_for-Covers_iff}
use vda.Mqtt.{Request, subscribe, publish, disconnect, on_message}
use vda.Viewer.{subscribe_each, on_connect, viewed}

abbrev IsKnown : String → Type 0
IsKnown t = validate_topic_name t ≡ none

viewed-IsKnown : All IsKnown viewed
unfolding validate_topic_name
viewed-IsKnown = (refl, (refl, (refl, (refl, tt))))

module _ {B : Type 0} where
  -- One of the calls subscribes to a filter that covers the topic.
  abbrev pub Listens : String → List (Request B) → Type 0
  Listens topic [] = ⊥
  Listens topic (subscribe filter level handler ∷ rest) =
      Covers (levels (codes filter)) (levels (codes topic)) ⊎ Listens topic rest
  Listens topic (_ ∷ rest) = Listens topic rest

  Listens-append :
      (topic : String) (calls more : List (Request B))
      → Listens topic calls
      → Listens topic (calls ++ more)
  Listens-append topic [] more l = absurd l
  Listens-append topic (subscribe filter level handler ∷ rest) more (inl c) = inl c
  Listens-append topic (subscribe filter level handler ∷ rest) more (inr l) =
      inr (Listens-append topic rest more l)
  Listens-append topic (publish t level retained payload ∷ rest) more l =
      Listens-append topic rest more l
  Listens-append topic (disconnect time ∷ rest) more l = Listens-append topic rest more l

  subscribe_each_on :
      (fails : Request B → Bool) (t : String) (rest : List String)
      → ((call : Request B) → fails call ≡ false)
      → IsKnown t
      → (w : String) × (wildcard_for t ≡ inr w)
        × (subscribe_each fails (t ∷ rest) ≡ (
          subscribe w (qos t) on_message ∷ (subscribe_each fails rest).0,
          (subscribe_each fails rest).1,
        ))
  unfolding subscribe_each
  subscribe_each_on fails t rest works known =
      let w =
        join_slash interface_name (join_slash major_version (join_slash "+" (join_slash "+" t))) in
      let is = wildcard_for_on t known in
      let sent = works (subscribe w (qos t) on_message) in (w, is, ground arith)

  subscribe_each-All :
      (fails : Request B → Bool) (ts : List String)
      → ((call : Request B) → fails call ≡ false)
      → All IsKnown ts
      → (subscribe_each fails ts).1 ≡ true
  subscribe_each-All fails [] works known = unfold subscribe_each in refl
  subscribe_each-All fails (t ∷ ts) works (k, known) =
      let (w, is, step) = subscribe_each_on fails t ts works k in
      ap (λ q. q.1) step ∙ subscribe_each-All fails ts works known

  subscribe_each-Listens :
      (fails : Request B → Bool) (ts : List String) (m s name topic : String)
      → ((call : Request B) → fails call ≡ false)
      → All IsKnown ts
      → Mem name ts
      → topic_for m s name ≡ inr topic
      → Listens topic (subscribe_each fails ts).0
  subscribe_each-Listens fails [] m s name topic works known mem e = absurd mem
  subscribe_each-Listens fails (t ∷ ts) m s name topic works (k, known) mem e =
      let (w, is, step) = subscribe_each_on fails t ts works k in
      rw step (elim mem [
        | inl same ↦ inl ((wildcard_for-Covers_iff t w m s name topic is e).1 (sym same))
        | inr later ↦ inr (subscribe_each-Listens fails ts m s name topic works known later e)
      ])

  -- If no token of a subscription has an error, the viewer listens to every topic of each robot's
  -- connection, visualization, state and orders.
  pub on_connect-Listens :
      (fails : Request B → Bool) (manufacturer serial name topic : String)
      → ((call : Request B) → fails call ≡ false)
      → Mem name viewed
      → topic_for manufacturer serial name ≡ inr topic
      → Listens topic (on_connect fails)
  unfolding on_connect
  on_connect-Listens fails m s name topic works mem e =
      let all = subscribe_each-All fails viewed works viewed-IsKnown in
      rw all (
        Listens-append topic (subscribe_each fails viewed).0 _
          (subscribe_each-Listens fails viewed m s name topic works viewed-IsKnown mem e))
