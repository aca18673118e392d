-- ===== src/Hub/Latest.antt =====
-- The map of the latest messages, as a list without repeated topics.
use vda.Prelude.{List, [], ◌∷◌, ◌≡◌, ◌≢◌, ◌↔◌, ◌⊎◌, sym, All, arith, Bool-cases, inl, inr}
use vda.Prelude.Text.{String, str_eq, eq_iff}
use vda.Hub.{put}

module _ {M : Type 0} where
  -- The map holds the message for the topic.
  abbrev pub Holds : String → M → List (String × M) → Type 0
  Holds topic msg [] = ⊥
  Holds topic msg ((t, m) ∷ rest) = ((topic ≡ t) × (msg ≡ m)) ⊎ Holds topic msg rest

  -- No topic stands in the map twice.
  abbrev pub OneEach : List (String × M) → Type 0
  OneEach [] = Unit {0}
  OneEach ((t, m) ∷ rest) = All (λ entry. entry.0 ≢ t) rest × OneEach rest

  put-All :
      (t topic : String) (msg : M) (l : List (String × M))
      → topic ≢ t
      → All (λ entry. entry.0 ≢ t) l
      → All (λ entry. entry.0 ≢ t) (put topic msg l)
  unfolding put
  put-All t topic msg [] apart all = (apart, tt)
  put-All t topic msg ((k, m) ∷ rest) apart (a, all) = elim (Bool-cases (str_eq topic k)) [
    | inl e ↦ rw e (a, all)
    | inr e ↦ rw e (a, put-All t topic msg rest apart all)
  ]

  pub put-OneEach :
      (topic : String) (msg : M) (l : List (String × M)) → OneEach l → OneEach (put topic msg l)
  unfolding put
  put-OneEach topic msg [] one = (tt, tt)
  put-OneEach topic msg ((k, m) ∷ rest) (a, one) = elim (Bool-cases (str_eq topic k)) [
    | inl e ↦ rw e (a, one)
    | inr e ↦
        let apart : topic ≢ k = ground (arith, eq_iff topic k) in
        rw e (put-All k topic msg rest apart a, put-OneEach topic msg rest one)
  ]

  absent-Holds :
      (topic : String) (msg : M) (l : List (String × M))
      → All (λ entry. entry.0 ≢ topic) l
      → ¬ Holds topic msg l
  absent-Holds topic msg [] all h = absurd h
  absent-Holds topic msg ((t, m) ∷ rest) (a, all) (inl (e, _)) = a (sym e)
  absent-Holds topic msg ((t, m) ∷ rest) (a, all) (inr h) = absent-Holds topic msg rest all h

  -- The new entry is in, its topic has no other, and the others stay.
  pub put-same :
      (topic : String) (msg m : M) (l : List (String × M))
      → OneEach l
      → Holds topic m (put topic msg l) ↔ (m ≡ msg)
  unfolding put
  put-same topic msg m [] one = ground arith
  put-same topic msg m ((t, x) ∷ rest) (a, one) = elim (Bool-cases (str_eq topic t)) [
    | inl e ↦
        let same : topic ≡ t = (eq_iff topic t).0 e in
        let gone = absent-Holds topic m rest (rw same a) in rw e (ground arith)
    | inr e ↦
        let apart : topic ≢ t = ground (arith, eq_iff topic t) in
        let later = put-same topic msg m rest one in rw e (ground arith)
  ]

  pub put-other :
      (topic t : String) (msg m : M) (l : List (String × M))
      → topic ≢ t
      → Holds topic m (put t msg l) ↔ Holds topic m l
  unfolding put
  put-other topic t msg m [] apart = ground arith
  put-other topic t msg m ((k, x) ∷ rest) apart = elim (Bool-cases (str_eq t k)) [
    | inl e ↦
        let same : t ≡ k = (eq_iff t k).0 e in
        let other : topic ≢ k = rw (sym same) apart in rw e (ground arith)
    | inr e ↦ let later = put-other topic t msg m rest apart in rw e (ground arith)
  ]
