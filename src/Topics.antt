-- ===== src/Topics.antt =====
-- common/topics.go: the names of the MQTT topics, their quality of service, and the checks on the parts
-- of a topic. `fmt.Sprintf` with `%s` and `%c` is written out as a concatenation; the `%q` of the two
-- errors' texts is left out. A Go string is taken to be valid UTF-8.
pub mod Segments
pub mod Levels
pub mod Names
pub mod RoundTrip
pub mod Subscriptions
use vda.Prelude.{
  ℕ, Bool, true, false, not, ◌||◌, ◌&&◌, Option, none, some, List, [], ◌∷◌, ◌==◌, ◌⊎◌, inl, inr,
  if◌then◌else◌,
}
use vda.Prelude.Text.{String, ◌<>◌, str_eq, codes, text_of}

abbrev pub interface_name : String
interface_name = "vda5050"

abbrev pub major_version : String
major_version = "v3"

abbrev pub fleet_to_robot : List String
fleet_to_robot = "order" ∷ "instantActions" ∷ "zoneSet" ∷ "responses" ∷ []

abbrev pub robot_to_fleet : List String
robot_to_fleet = "state" ∷ "connection" ∷ "factsheet" ∷ "visualization" ∷ []

abbrev pub all_topics : List String
all_topics =
    "order" ∷ "instantActions" ∷ "state" ∷ "connection" ∷ "factsheet" ∷ "visualization" ∷ "zoneSet"
    ∷ "responses" ∷ []

abbrev qos_table : List (String × ℕ)
qos_table =
    ("order", 0)
    ∷ ("instantActions", 0)
    ∷ ("state", 0)
    ∷ ("connection", 1)
    ∷ ("factsheet", 0)
    ∷ ("visualization", 0)
    ∷ ("zoneSet", 0)
    ∷ ("responses", 0)
    ∷ []

qos_in : String → List (String × ℕ) → ℕ
qos_in topic [] = 0
qos_in topic ((t, level) ∷ rest) =
    let later = qos_in topic rest in if str_eq topic t then level else later

-- An index into the map `QOS`, which has 0 for a name that it does not hold.
unfoldable pub qos : String → ℕ
unfolding qos_in
qos topic = qos_in topic qos_table

abbrev pub retained : List String
retained = "connection" ∷ []

abbrev pub forbidden_chars : List String
forbidden_chars = "/" ∷ "+" ∷ "#" ∷ "$" ∷ []

-- `ALLOWED_CHARS`, joined.
abbrev pub allowed : String
allowed = "abcdefghijklmnopqrstuvwxyz" <> ("ABCDEFGHIJKLMNOPQRSTUVWXYZ" <> ("0123456789" <> "_.:-"))

-- `TopicError` and `FieldError`.
pub data TopicFault : Type 0 where
  topic_error : (topic reason : String) → TopicFault
  field_error : (field reason : String) → TopicFault

-- `strings.Contains`, on the characters of the two texts.
pub begins : List ℕ → List ℕ → Bool
begins s [] = true
begins [] (d ∷ sub) = false
begins (c ∷ s) (d ∷ sub) = if c == d then begins s sub else false

pub contains_in : List ℕ → List ℕ → Bool
unfolding begins
contains_in [] sub = begins [] sub
contains_in (c ∷ s) sub =
    let later = contains_in s sub in if begins (c ∷ s) sub then true else later

unfoldable pub contains : String → String → Bool
unfolding contains_in
contains s sub = contains_in (codes s) (codes sub)

pub first_forbidden : String → String → List String → Option TopicFault
unfolding contains
first_forbidden field value [] = none
first_forbidden field value (c ∷ rest) =
    let later = first_forbidden field value rest in
    if contains value c
    then some (field_error field ("contains forbidden character '" <> (c <> "'")))
    else later

unfoldable pub validate_segment : String → String → Option TopicFault
unfolding first_forbidden
validate_segment field value =
    if str_eq value ""
    then some (field_error field "empty value")
    else first_forbidden field value forbidden_chars

-- The loop of `ValidateSerial`.
unfoldable pub first_invalid : String → Option TopicFault
unfolding contains
first_invalid String.[] = none
first_invalid (String.◌∷◌ c rest) =
    let later = first_invalid rest in
    if not (contains allowed (text_of c))
    then some (field_error "serial" ("contains invalid character '" <> (text_of c <> "'")))
    else later

unfoldable pub validate_serial : String → Option TopicFault
validate_serial serial = elim (validate_segment "serial" serial) [
  | some e ↦ some e
  | none ↦ first_invalid serial
]

pub known_topic : String → List String → Option TopicFault
known_topic topic [] = some (topic_error topic "unknown topic")
known_topic topic (t ∷ rest) =
    let later = known_topic topic rest in if str_eq topic t then none else later

unfoldable pub validate_topic_name : String → Option TopicFault
unfolding known_topic
validate_topic_name topic = known_topic topic all_topics

abbrev pub join_slash : String → String → String
join_slash a b = a <> ("/" <> b)

unfoldable pub topic_for : String → String → String → TopicFault ⊎ String
topic_for manufacturer serial topic = elim (validate_segment "manufacturer" manufacturer) [
  | some e ↦ inl e
  | none ↦ elim (validate_serial serial) [
    | some e ↦ inl e
    | none ↦ elim (validate_topic_name topic) [
      | some e ↦ inl e
      | none ↦ inr (
          join_slash interface_name
            (join_slash major_version (join_slash manufacturer (join_slash serial topic))))
    ]
  ]
]

unfoldable pub wildcard_for : String → TopicFault ⊎ String
wildcard_for topic = elim (validate_topic_name topic) [
  | some e ↦ inl e
  | none ↦
      inr (
        join_slash interface_name
          (join_slash major_version (join_slash "+" (join_slash "+" topic))))
]
