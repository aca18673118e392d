-- ===== src/Topics/Names.antt =====
-- The names that are topics.
use vda.Prelude.{false, ◌≡◌, refl, ◌↔◌, ◌⊎◌, none, List, [], ◌∷◌, arith, All, inl, inr}
use vda.Prelude.Text.{String, eq_iff, codes}
use vda.Topics.{validate_topic_name, known_topic, all_topics, fleet_to_robot, robot_to_fleet}
use vda.Topics.Segments.{has, IsClean}

-- The name is one of the list.
abbrev pub Mem : String → List String → Type 0
Mem topic [] = ⊥
Mem topic (t ∷ rest) = (topic ≡ t) ⊎ Mem topic rest

pub known_topic_iff :
    (topic : String) (ts : List String) → (known_topic topic ts ≡ none) ↔ Mem topic ts
unfolding known_topic
known_topic_iff topic [] = (λ h. cc h, λ h. absurd h)
known_topic_iff topic (t ∷ ts) = ground (arith, eq_iff topic t, known_topic_iff topic ts)

Mem-IsClean :
    (topic : String) (ts : List String)
    → All (λ t. IsClean (codes t)) ts
    → Mem topic ts
    → IsClean (codes topic)
Mem-IsClean topic [] all m = absurd m
Mem-IsClean topic (t ∷ ts) (clean, all) (inl e) = rw e clean
Mem-IsClean topic (t ∷ ts) (clean, all) (inr m) = Mem-IsClean topic ts all m

IsClean-name :
    (t : String)
    → has b'/' (codes t) ≡ false
    → has b'+' (codes t) ≡ false
    → has b'#' (codes t) ≡ false
    → has b'$' (codes t) ≡ false
    → IsClean (codes t)
IsClean-name t slash plus hash dollar = record {
  no_slash = slash;
  no_plus = plus;
  no_hash = hash;
  no_dollar = dollar;
}

topics-IsClean : All (λ t. IsClean (codes t)) all_topics
unfolding has codes
topics-IsClean =
    let c0 = IsClean-name "order" refl refl refl refl in
    let c1 = IsClean-name "instantActions" refl refl refl refl in
    let c2 = IsClean-name "state" refl refl refl refl in
    let c3 = IsClean-name "connection" refl refl refl refl in
    let c4 = IsClean-name "factsheet" refl refl refl refl in
    let c5 = IsClean-name "visualization" refl refl refl refl in
    let c6 = IsClean-name "zoneSet" refl refl refl refl in
    let c7 = IsClean-name "responses" refl refl refl refl in
    (c0, (c1, (c2, (c3, (c4, (c5, (c6, (c7, tt))))))))

-- `ValidateTopicName` passes exactly the eight names.
pub validate_topic_name_iff :
    (topic : String) → (validate_topic_name topic ≡ none) ↔ Mem topic all_topics
unfolding validate_topic_name
validate_topic_name_iff topic = known_topic_iff topic all_topics

pub topic_name-IsClean : (topic : String) → validate_topic_name topic ≡ none → IsClean (codes topic)
topic_name-IsClean topic e =
    Mem-IsClean topic all_topics topics-IsClean ((validate_topic_name_iff topic).0 e)

-- The topics are those that the fleet publishes and those that the robot publishes.
all_topics-Mem :
    (topic : String) → Mem topic all_topics ↔ (Mem topic fleet_to_robot ⊎ Mem topic robot_to_fleet)
all_topics-Mem topic = ground arith
