-- ===== src/Topics/Subscriptions.antt =====
-- Which topics a subscription to `WildcardFor` covers.
use vda.Prelude.{
  ℕ, true, ◌≡◌, refl, ◌≢◌, ◌↔◌, ◌⊎◌, none, List, [], ◌∷◌, map, arith, ap, ◌∙◌, inl, inr,
}
use vda.Prelude.Text.{String, codes}
use vda.Topics.{
  validate_topic_name, topic_for, wildcard_for, join_slash, interface_name, major_version,
}
use vda.Topics.Segments.{has, IsClean}
use vda.Topics.Levels.{levels, codes_inj}
use vda.Topics.Names.{topic_name-IsClean}
use vda.Topics.RoundTrip.{topic_for-levels, levels_of_five}

-- The order of a filter and a topic that MQTT documents, level by level: a plus sign stands for any one
-- level.
abbrev pub Covers : List (List ℕ) → List (List ℕ) → Type 0
Covers [] [] = Unit {0}
Covers (f ∷ fs) (level ∷ rest) = ((f ≡ codes "+") ⊎ (f ≡ level)) × Covers fs rest
Covers _ _ = ⊥

wildcard_for_passed :
    (t w : String)
    → wildcard_for t ≡ inr w
    → (validate_topic_name t ≡ none)
      × (w
          ≡ join_slash interface_name
              (join_slash major_version (join_slash "+" (join_slash "+" t))))
unfolding wildcard_for
wildcard_for_passed t w e = ground arith

pub wildcard_for_on :
    (t : String)
    → validate_topic_name t ≡ none
    → wildcard_for t
      ≡ inr
          (join_slash interface_name (join_slash major_version (join_slash "+" (join_slash "+" t))))
unfolding wildcard_for
wildcard_for_on t e = ground arith

wildcard_for-levels :
    (topic w : String)
    → wildcard_for topic ≡ inr w
    → levels (codes w) ≡ map codes (interface_name ∷ major_version ∷ "+" ∷ "+" ∷ topic ∷ [])
wildcard_for-levels t w e =
    let (et, is) = wildcard_for_passed t w e in
    rw is (
      levels_of_five "+" "+" t (unfold has codes in refl) (unfold has codes in refl)
        (topic_name-IsClean t et).no_slash)

not_plus : (t : String) → IsClean (codes t) → codes t ≢ codes "+"
not_plus t clean e =
    let gone : has b'+' (codes t) ≡ true = ap (has b'+') e ∙ unfold has codes in refl in
    cc (gone, clean.no_plus)

-- A subscription to `WildcardFor` of a name covers a topic that `TopicFor` gives exactly if the topic has
-- that name, whichever the robot.
pub wildcard_for-Covers_iff :
    (name w manufacturer serial topic r : String)
    → wildcard_for name ≡ inr w
    → topic_for manufacturer serial topic ≡ inr r
    → Covers (levels (codes w)) (levels (codes r)) ↔ (name ≡ topic)
wildcard_for-Covers_iff name w m s t r ew er =
    let clean = topic_name-IsClean name (wildcard_for_passed name w ew).0 in
    rw (wildcard_for-levels name w ew, topic_for-levels m s t r er)
      (
        λ (_, (_, (_, (_, (last, _))))). elim last [
          | inl plus ↦ absurd (not_plus name clean plus)
          | inr same ↦ codes_inj name t same
        ],
        λ same. (inr refl, (inr refl, (inl refl, (inl refl, (inr (ap codes same), tt))))),
      )
