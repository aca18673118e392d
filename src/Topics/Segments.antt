-- ===== src/Topics/Segments.antt =====
-- What the checks on the parts of a topic let pass.
use Prim.Native.Char.{Char, code}
use vda.Prelude.{
  ℕ, Bool, true, false, ◌≡◌, refl, ◌≢◌, ◌↔◌, none, some, List, [], ◌∷◌, ◌==◌, arith, ap, ◌∙◌, sym,
  All, if◌then◌else◌, Bool-cases, Option-cases, inl, inr, ==_iff,
}
use vda.Prelude.Text.{String, eq_iff, codes, text_of}
use vda.Topics.{
  TopicFault, contains, contains_in, begins, validate_segment, validate_serial, first_forbidden,
  first_invalid, allowed,
}

-- The list has the number.
unfoldable pub has : ℕ → List ℕ → Bool
has d [] = false
has d (c ∷ s) = let later = has d s in if c == d then true else later

contains_in-has : (s : List ℕ) (d : ℕ) → contains_in s (d ∷ []) ≡ has d s
unfolding contains_in begins has
contains_in-has [] d = refl
contains_in-has (c ∷ s) d = ground (arith, contains_in-has s d)

-- No character of the text is a slash, a plus sign, a hash or a dollar sign.
pub record IsClean (s : List ℕ) : Type 0 where
  pub no_slash : has b'/' s ≡ false
  pub no_plus : has b'+' s ≡ false
  pub no_hash : has b'#' s ≡ false
  pub no_dollar : has b'$' s ≡ false

-- `ValidateSegment` passes exactly the texts that are not empty and have none of the four characters
-- that MQTT reserves in topics.
pub validate_segment_iff :
    (field value : String)
    → (validate_segment field value ≡ none) ↔ ((value ≢ "") × IsClean (codes value))
unfolding validate_segment first_forbidden contains codes
validate_segment_iff field value =
    let s = codes value in
    let slash = contains_in-has s b'/' in
    let plus = contains_in-has s b'+' in
    let hash = contains_in-has s b'#' in
    let dollar = contains_in-has s b'$' in
    ground (arith, eq_iff value "", slash, plus, hash, dollar)

abbrev pub IsAllowed : ℕ → Type 0
IsAllowed c = has c (codes allowed) ≡ true

contains-allowed : (c : Char) → contains allowed (text_of c) ≡ has (code c) (codes allowed)
unfolding contains
contains-allowed c =
    let single : codes (text_of c) ≡ code c ∷ [] = unfold codes in refl in
    ap (contains_in (codes allowed)) single ∙ contains_in-has (codes allowed) (code c)

first_invalid_iff : (s : String) → (first_invalid s ≡ none) ↔ All IsAllowed (codes s)
unfolding first_invalid codes
first_invalid_iff String.[] = (λ _. tt, λ _. refl)
first_invalid_iff (String.◌∷◌ c s) =
    let known = contains-allowed c in
    let rest = first_invalid_iff s in
    elim (Bool-cases (contains allowed (text_of c))) [
      | inl e ↦ (λ h. (sym known ∙ e, rest.0 (rw e at h)), λ (a, all). rw e (rest.1 all))
      | inr e ↦ (λ h. absurd (cc (rw e at h)), λ (a, all). absurd (cc (known, e, a)))
    ]

-- A character that is not allowed stands in no text of allowed ones.
absent : (d : ℕ) (s : List ℕ) → has d (codes allowed) ≡ false → All IsAllowed s → has d s ≡ false
unfolding has
absent d [] gone all = refl
absent d (c ∷ s) gone (a, all) = elim (Bool-cases (c == d)) [
  | inl e ↦
      let same : c ≡ d = (==_iff c d).0 e in
      absurd (cc (gone, a, ap (λ k. has k (codes allowed)) same))
  | inr e ↦ rw e (absent d s gone all)
]

allowed-IsClean : IsClean (codes allowed)
unfolding has codes
allowed-IsClean = record { no_slash = refl; no_plus = refl; no_hash = refl; no_dollar = refl }

pub IsAllowed-IsClean : (s : List ℕ) → All IsAllowed s → IsClean s
IsAllowed-IsClean s all = record {
  no_slash = absent b'/' s allowed-IsClean.no_slash all;
  no_plus = absent b'+' s allowed-IsClean.no_plus all;
  no_hash = absent b'#' s allowed-IsClean.no_hash all;
  no_dollar = absent b'$' s allowed-IsClean.no_dollar all;
}

serial_on : (s : String) → validate_segment "serial" s ≡ none → validate_serial s ≡ first_invalid s
unfolding validate_serial
serial_on s e = cc

serial_off :
    (s : String) (x : TopicFault)
    → validate_segment "serial" s ≡ some x
    → validate_serial s ≡ some x
unfolding validate_serial
serial_off s x e = cc

-- `ValidateSerial` passes exactly the texts that are not empty and have allowed characters only.
pub validate_serial_iff :
    (serial : String)
    → (validate_serial serial ≡ none) ↔ ((serial ≢ "") × All IsAllowed (codes serial))
validate_serial_iff serial = elim (Option-cases (validate_segment "serial" serial)) [
  | inl e ↦
      let (some_text, clean) = (validate_segment_iff "serial" serial).0 e in
      let on = serial_on serial e in
      (
        λ h. (some_text, (first_invalid_iff serial).0 (sym on ∙ h)),
        λ (t, all). on ∙ (first_invalid_iff serial).1 all,
      )
  | inr (x, e) ↦ (
    λ h. absurd (cc (h, serial_off serial x e)),
    λ (t, all). absurd (
        cc (e, (validate_segment_iff "serial" serial).1 (t, IsAllowed-IsClean (codes serial) all))),
  )
]
