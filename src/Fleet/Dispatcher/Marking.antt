-- ===== src/Fleet/Dispatcher/Marking.antt =====
-- The loops of `release`, and what the slices of `buildOrder` are, on a route released up to an index.
use vda.Prelude.{
  ℕ, zero, suc, ◌+◌, ◌≤◌, ◌<◌, ◌≡◌, refl, some, List, [], ◌∷◌, map, take, drop, length, arith, ap,
  ◌∙◌, ◌>>=◌,
}
use vda.Fleet.Dispatcher.{release_at, release_range}
use vda.Fleet.Dispatcher.Plan.{mark}

module _ {A : Type 0} (f : A → A) where
  release_at-mark :
      (i : ℕ) (xs : List A)
      → i < length xs
      → release_at f (mark f i xs) i ≡ some (mark f (suc i) xs)
  unfolding release_at
  release_at-mark zero [] h = absurd (omega arith)
  release_at-mark (suc i) [] h = absurd (omega arith)
  release_at-mark zero (x ∷ xs) h = refl
  release_at-mark (suc i) (x ∷ xs) h = rw (release_at-mark i xs (omega arith))

  -- A loop from the end of the mark moves the mark to its own end.
  pub release_range-mark :
      (k i : ℕ) (xs : List A)
      → i + k ≤ length xs
      → release_range f k i (mark f i xs) ≡ some (mark f (i + k) xs)
  unfolding release_range
  release_range-mark zero i xs h = ap (λ j. some (mark f j xs)) (omega arith)
  release_range-mark (suc k) i xs h =
      ap (λ m. m >>= λ xs'. release_range f k (suc i) xs') (release_at-mark i xs (omega arith))
      ∙ release_range-mark k (suc i) xs (omega arith)
      ∙ ap (λ j. some (mark f j xs)) (omega arith)

  pub length-mark : (k : ℕ) (xs : List A) → length (mark f k xs) ≡ length xs
  length-mark zero xs = refl
  length-mark (suc k) [] = refl
  length-mark (suc k) (x ∷ xs) = ap suc (length-mark k xs)

  take-mark : (k : ℕ) (xs : List A) → take k (mark f k xs) ≡ map f (take k xs)
  take-mark zero xs = refl
  take-mark (suc k) [] = refl
  take-mark (suc k) (x ∷ xs) = ap (◌∷◌ (f x)) (take-mark k xs)

  take_nil : (k : ℕ) → take k [] ≡ map f (take k [])
  take_nil zero = refl
  take_nil (suc k) = refl

  -- A slice that ends where the mark ends is released.
  pub slice-mark :
      (k i m : ℕ) (xs : List A)
      → m ≡ i + k
      → take k (drop i (mark f m xs)) ≡ map f (take k (drop i xs))
  slice-mark k zero m xs e = let same : m ≡ k = omega arith in rw same (take-mark k xs)
  slice-mark k (suc i) zero xs e = absurd (omega arith)
  slice-mark k (suc i) (suc m) [] e = take_nil k
  slice-mark k (suc i) (suc m) (x ∷ xs) e = slice-mark k i m xs (omega arith)
