-- ===== src/Topics/RoundTrip.antt =====
-- What can be read from a topic, and which topics a subscription covers.
use mathlib.Core.List.{head-eq_of_cons-eq, tail-eq_of_cons-eq}
use vda.Prelude.{false, ◌≡◌, refl, ◌≢◌, ◌↔◌, none, [], ◌∷◌, map, arith, ◌∙◌, sym, All, inr}
use vda.Prelude.Text.{String, codes}
use vda.Topics.{
  validate_segment, validate_serial, validate_topic_name, all_topics, topic_for, join_slash,
  interface_name, major_version,
}
use vda.Topics.Segments.{
  has, IsClean, IsAllowed, validate_segment_iff, validate_serial_iff, IsAllowed-IsClean,
}
use vda.Topics.Levels.{levels, levels-join_slash, levels-last, codes_inj}
use vda.Topics.Names.{Mem, validate_topic_name_iff, topic_name-IsClean}

-- Every part of the topic is one that the checks pass.
pub record IsNamed (manufacturer serial topic : String) : Type 0 where
  pub manufacturer_text : manufacturer ≢ ""
  pub manufacturer_clean : IsClean (codes manufacturer)
  pub serial_text : serial ≢ ""
  pub serial_allowed : All IsAllowed (codes serial)
  pub topic_known : Mem topic all_topics

abbrev pub joined : String → String → String → String
joined m s t = join_slash interface_name (join_slash major_version (join_slash m (join_slash s t)))

pub topic_for_passed :
    (m s t r : String)
    → topic_for m s t ≡ inr r
    → (validate_segment "manufacturer" m ≡ none)
      × (validate_serial s ≡ none)
      × (validate_topic_name t ≡ none)
      × (r ≡ joined m s t)
unfolding topic_for
topic_for_passed m s t r e = ground arith

topic_for_on :
    (m s t : String)
    → validate_segment "manufacturer" m ≡ none
    → validate_serial s ≡ none
    → validate_topic_name t ≡ none
    → topic_for m s t ≡ inr (joined m s t)
unfolding topic_for
topic_for_on m s t em es et = ground arith

topic_for-IsNamed : (m s t r : String) → topic_for m s t ≡ inr r → IsNamed m s t
topic_for-IsNamed m s t r e =
    let (em, es, et, _) = topic_for_passed m s t r e in
    let (mt, mc) = (validate_segment_iff "manufacturer" m).0 em in
    let (st, sc) = (validate_serial_iff s).0 es in
    record {
      manufacturer_text = mt;
      manufacturer_clean = mc;
      serial_text = st;
      serial_allowed = sc;
      topic_known = (validate_topic_name_iff t).0 et;
    }

-- `TopicFor` gives a topic exactly for a manufacturer that is not empty and free of the characters that
-- MQTT reserves, a serial number that is not empty and of allowed characters, and one of the eight names.
pub topic_for_iff :
    (manufacturer serial topic : String)
    → ((r : String) × (topic_for manufacturer serial topic ≡ inr r))
      ↔ IsNamed manufacturer serial topic
topic_for_iff m s t = (
  λ (r, e). topic_for-IsNamed m s t r e,
  λ n. (
    joined m s t,
    topic_for_on m s t
        ((validate_segment_iff "manufacturer" m).1 (n.manufacturer_text, n.manufacturer_clean))
        ((validate_serial_iff s).1 (n.serial_text, n.serial_allowed))
        ((validate_topic_name_iff t).1 n.topic_known),
  ),
)

pub levels_of_five :
    (m s t : String)
    → has b'/' (codes m) ≡ false
    → has b'/' (codes s) ≡ false
    → has b'/' (codes t) ≡ false
    → levels (codes (joined m s t)) ≡ map codes (interface_name ∷ major_version ∷ m ∷ s ∷ t ∷ [])
levels_of_five m s t cm cs ct =
    let of_topic = levels-last (codes t) ct in
    let of_serial = levels-join_slash s t cs in
    let of_maker = levels-join_slash m (join_slash s t) cm in
    let of_version =
      levels-join_slash major_version (join_slash m (join_slash s t)) (unfold has codes in refl) in
    let of_interface =
      levels-join_slash interface_name (join_slash major_version (join_slash m (join_slash s t)))
        (unfold has codes in refl) in
    rw (of_interface, of_version, of_maker, of_serial, of_topic) refl

-- The levels of a topic that `TopicFor` gives are the interface, its version, the manufacturer, the serial
-- number and the name.
pub topic_for-levels :
    (manufacturer serial topic r : String)
    → topic_for manufacturer serial topic ≡ inr r
    → levels (codes r)
      ≡ map codes (interface_name ∷ major_version ∷ manufacturer ∷ serial ∷ topic ∷ [])
topic_for-levels m s t r e =
    let (em, es, et, is) = topic_for_passed m s t r e in
    let n = topic_for-IsNamed m s t r e in
    rw is (
      levels_of_five m s t n.manufacturer_clean.no_slash
        (IsAllowed-IsClean (codes s) n.serial_allowed).no_slash (topic_name-IsClean t et).no_slash)

-- Two topics that `TopicFor` gives are equal only for equal parts.
pub topic_for_inj :
    (manufacturer serial topic manufacturer' serial' topic' r : String)
    → topic_for manufacturer serial topic ≡ inr r
    → topic_for manufacturer' serial' topic' ≡ inr r
    → (manufacturer ≡ manufacturer') × (serial ≡ serial') × (topic ≡ topic')
topic_for_inj m s t m' s' t' r e e' =
    let same = sym (topic_for-levels m s t r e) ∙ topic_for-levels m' s' t' r e' in
    let from_maker = tail-eq_of_cons-eq (tail-eq_of_cons-eq same) in
    let from_serial = tail-eq_of_cons-eq from_maker in
    let from_topic = tail-eq_of_cons-eq from_serial in
    (
      codes_inj m m' (head-eq_of_cons-eq from_maker),
      codes_inj s s' (head-eq_of_cons-eq from_serial),
      codes_inj t t' (head-eq_of_cons-eq from_topic),
    )
