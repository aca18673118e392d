-- ===== src/Topics/Levels.antt =====
-- The levels of a topic, which are what lies between its slashes.
use text.Mathlib.TextEquality.{Char-path}
use mathlib.Core.List.{head-eq_of_cons-eq, tail-eq_of_cons-eq}
use mathlib.Core.Path.{ap₂}
use vda.Prelude.{ℕ, false, ◌≡◌, refl, List, [], ◌∷◌, ◌++◌, ◌==◌, arith, ap, ◌∙◌, if◌then◌else◌}
use vda.Prelude.Text.{String, codes, codes-append, ◌<>◌}
use vda.Topics.{join_slash}
use vda.Topics.Segments.{has}

-- A character in front of the first level.
abbrev push : ℕ → List (List ℕ) → List (List ℕ)
push c [] = (c ∷ []) ∷ []
push c (level ∷ levels') = (c ∷ level) ∷ levels'

unfoldable pub levels : List ℕ → List (List ℕ)
levels [] = [] ∷ []
levels (c ∷ s) = let rest = levels s in if c == b'/' then [] ∷ rest else push c rest

levels-slash : (p rest : List ℕ) → has b'/' p ≡ false → levels (p ++ b'/' ∷ rest) ≡ p ∷ levels rest
unfolding levels has
levels-slash [] rest gone = refl
levels-slash (c ∷ p) rest gone = ground (arith, levels-slash p rest)

pub levels-last : (p : List ℕ) → has b'/' p ≡ false → levels p ≡ p ∷ []
unfolding levels has
levels-last [] gone = refl
levels-last (c ∷ p) gone = ground (arith, levels-last p)

codes-join_slash : (a b : String) → codes (join_slash a b) ≡ codes a ++ b'/' ∷ codes b
codes-join_slash a b =
    codes-append a ("/" <> b) ∙ ap (λ s. codes a ++ s) (codes-append "/" b ∙ unfold codes in refl)

pub levels-join_slash :
    (a b : String)
    → has b'/' (codes a) ≡ false
    → levels (codes (join_slash a b)) ≡ codes a ∷ levels (codes b)
levels-join_slash a b clean =
    ap levels (codes-join_slash a b) ∙ levels-slash (codes a) (codes b) clean

pub codes_inj : (s t : String) → codes s ≡ codes t → s ≡ t
unfolding codes
codes_inj String.[] String.[] e = refl
codes_inj String.[] (String.◌∷◌ d t) e = absurd (cc e)
codes_inj (String.◌∷◌ c s) String.[] e = absurd (cc e)
codes_inj (String.◌∷◌ c s) (String.◌∷◌ d t) e =
    ap₂ String.◌∷◌ (Char-path c d (head-eq_of_cons-eq e)) (codes_inj s t (tail-eq_of_cons-eq e))
