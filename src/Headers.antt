-- ===== src/Headers.antt =====
-- common/header.go: the headers of the messages, numbered per topic by a uint32.
use vda.Prelude.{
  ℕ, suc, ◌+◌, ◌%◌, ◌^◌, ◌≡◌, refl, List, [], ◌∷◌, arith, if◌then◌else◌, Bool-cases, inl, inr, sym,
  ◌∙◌, ap,
}
use vda.Prelude.Text.{String, str_eq, eq_iff}
use vda.Models.Action.{Header}

-- The map has 0 for a topic that it does not hold.
pub record HeaderGenerator : Type 0 where
  pub id : String → ℕ

abbrev pub new_header_generator : HeaderGenerator
new_header_generator = record { id = λ topic. 0 }

abbrev version : String
version = "3.0.0"

unfoldable pub next : HeaderGenerator → String → HeaderGenerator × ℕ
next hg topic =
    let number = (hg.id topic + 1) % 2 ^ 32 in
    (record { id = λ t. if str_eq t topic then number else hg.id t }, number)

-- `timestamp` is the formatted time.
unfoldable pub generate :
    HeaderGenerator → String → String → String → String → HeaderGenerator × Header
unfolding next
generate hg timestamp topic manufacturer serial_number =
    let (hg', number) = next hg topic in
    (
      hg',
      record {
        header_id = number;
        timestamp = timestamp;
        version = version;
        manufacturer = manufacturer;
        serial_number = serial_number;
      },
    )

-- The generator after messages on these topics, the latest first.
unfoldable pub after_topics : List String → HeaderGenerator
unfolding next
after_topics [] = new_header_generator
after_topics (topic ∷ earlier) = (next (after_topics earlier) topic).0

-- How many of the messages were on the topic.
unfoldable pub count : String → List String → ℕ
count topic [] = 0
count topic (t ∷ earlier) = let n = count topic earlier in if str_eq topic t then suc n else n

after_topics-id :
    (topics : List String) (topic : String)
    → (after_topics topics).id topic ≡ count topic topics % 2 ^ 32
unfolding after_topics next count
after_topics-id [] topic = refl
after_topics-id (t ∷ earlier) topic = elim (Bool-cases (str_eq topic t)) [
  | inl e ↦
      let same = (eq_iff topic t).0 e in
      let before : (after_topics earlier).id t ≡ count topic earlier % 2 ^ 32 =
        ap (λ x. (after_topics earlier).id x) (sym same) ∙ after_topics-id earlier topic in
      rw e (omega arith)
  | inr e ↦ rw e (after_topics-id earlier topic)
]

-- The header of a message counts the messages on its topic so far, itself included, and wraps around at
-- 2 ^ 32; messages on other topics do not matter.
pub generate-count :
    (topics : List String) (timestamp topic manufacturer serial_number : String)
    → (generate (after_topics topics) timestamp topic manufacturer serial_number).1.header_id
      ≡ suc (count topic topics) % 2 ^ 32
unfolding generate next
generate-count topics timestamp topic manufacturer serial_number =
    let before = after_topics-id topics topic in omega arith
