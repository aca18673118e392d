-- ===== src/Validation/Ordered.antt =====
-- Sorting by sequenceId: `sort_slice` orders and permutes, and on numbers that differ it is determined.
use mathlib.Core.List.{Perm}
use mathlib.Core.List.Perm
use mathlib.Core.Logic.{◌≢◌}
use vda.Prelude.{
  ◌≡◌, refl, Bool, true, false, inl, inr, List, [], ◌∷◌, ◌++◌, arith, All, keep, Bool-cases, ap,
  ◌∙◌, sym,
}
use vda.Prelude.Int.{◌<ℤ◌, ◌≤ℤ◌, leb_ℤ, leb_ℤ→≤ℤ, leb_ℤ→≥ℤ}
use vda.Validation.Sorting.{Sequence, sequence_id, insert, sort_slice}

module _ {F : Type 0} where
  -- `s` is not above the head of the list.
  abbrev pub AtMost : Sequence F → List (Sequence F) → Type 0
  AtMost s [] = Unit {0}
  AtMost s (t ∷ ts) = sequence_id s ≤ℤ sequence_id t

  abbrev pub IsSorted : List (Sequence F) → Type 0
  IsSorted [] = Unit {0}
  IsSorted (s ∷ ss) = AtMost s ss × IsSorted ss

  -- Every number of the first list is below every number of the second.
  abbrev pub AllBelow : List (Sequence F) → List (Sequence F) → Type 0
  AllBelow ss ts = All (λ s. All (λ t. sequence_id s <ℤ sequence_id t) ts) ss

  insert-AtMost :
      (r s : Sequence F) (ss : List (Sequence F))
      → sequence_id r ≤ℤ sequence_id s
      → AtMost r ss
      → AtMost r (insert s ss)
  unfolding insert
  insert-AtMost r s [] h k = h
  insert-AtMost r s (t ∷ ts) h k = ground arith

  pub insert-IsSorted :
      (s : Sequence F) (ss : List (Sequence F)) → IsSorted ss → IsSorted (insert s ss)
  unfolding insert
  insert-IsSorted s [] h = (tt, tt)
  insert-IsSorted s (t ∷ ts) (h, hs) = elim (Bool-cases (leb_ℤ (sequence_id s) (sequence_id t))) [
    | inl e ↦ rw e (leb_ℤ→≤ℤ (sequence_id s) (sequence_id t) e, (h, hs))
    | inr e ↦ rw e (
      insert-AtMost t s ts (leb_ℤ→≥ℤ (sequence_id s) (sequence_id t) e) h,
      insert-IsSorted s ts hs,
    )
  ]

  pub sort_slice-IsSorted : (ss : List (Sequence F)) → IsSorted (sort_slice ss)
  unfolding sort_slice
  sort_slice-IsSorted [] = tt
  sort_slice-IsSorted (s ∷ ss) = insert-IsSorted s (sort_slice ss) (sort_slice-IsSorted ss)

  insert-perm : (s : Sequence F) (ss : List (Sequence F)) → Perm (insert s ss) (s ∷ ss)
  unfolding insert
  insert-perm s [] = Perm.refl _
  insert-perm s (t ∷ ts) = elim (Bool-cases (leb_ℤ (sequence_id s) (sequence_id t))) [
    | inl e ↦ rw e (Perm.refl _)
    | inr e ↦ rw e (Perm.trans (Perm.cons t (insert-perm s ts)) (Perm.swap s t ts))
  ]

  pub sort_slice-perm : (ss : List (Sequence F)) → Perm (sort_slice ss) ss
  unfolding sort_slice
  sort_slice-perm [] = Perm.refl _
  sort_slice-perm (s ∷ ss) =
      Perm.trans (insert-perm s (sort_slice ss)) (Perm.cons s (sort_slice-perm ss))

  -- Two insertions of different numbers commute.
  pub insert_comm :
      (s t : Sequence F) (ss : List (Sequence F))
      → sequence_id s ≢ sequence_id t
      → insert s (insert t ss) ≡ insert t (insert s ss)
  unfolding insert
  insert_comm s t [] h = ground arith
  insert_comm s t (u ∷ us) h = ground (arith, insert_comm s t us h)

  pub insert_sorted : (s : Sequence F) (ss : List (Sequence F)) → AtMost s ss → insert s ss ≡ s ∷ ss
  unfolding insert
  insert_sorted s [] h = refl
  insert_sorted s (t ∷ ts) h = ground arith

  pub sort_slice_sorted : (ss : List (Sequence F)) → IsSorted ss → sort_slice ss ≡ ss
  unfolding sort_slice
  sort_slice_sorted [] h = refl
  sort_slice_sorted (s ∷ ss) (h, hs) = rw (sort_slice_sorted ss hs) (insert_sorted s ss h)

  keep-insert_drop :
      (p : Sequence F → Bool) (s : Sequence F) (ss : List (Sequence F))
      → p s ≡ false
      → keep p (insert s ss) ≡ keep p ss
  unfolding insert keep
  keep-insert_drop p s [] h = rw h
  keep-insert_drop p s (t ∷ ts) h = ground (arith, keep-insert_drop p s ts h)

  insert-keep_above :
      (p : Sequence F → Bool) (s : Sequence F) (t : Sequence F) (ts : List (Sequence F))
      → sequence_id s ≤ℤ sequence_id t
      → AtMost t ts
      → IsSorted ts
      → insert s (keep p ts) ≡ s ∷ keep p ts
  unfolding insert keep
  insert-keep_above p s t [] h k v = refl
  insert-keep_above p s t (u ∷ us) h k (k', v) = ground (arith, insert-keep_above p s u us)

  keep-insert :
      (p : Sequence F → Bool) (s : Sequence F) (ss : List (Sequence F))
      → p s ≡ true
      → IsSorted ss
      → keep p (insert s ss) ≡ insert s (keep p ss)
  unfolding insert keep
  keep-insert p s [] h v = rw h
  keep-insert p s (t ∷ ts) h (k, v) =
      ground (arith, keep-insert p s ts h v, insert-keep_above p s t ts)

  -- Sorting commutes with a filter.
  pub sort_slice-keep :
      (p : Sequence F → Bool) (ss : List (Sequence F))
      → sort_slice (keep p ss) ≡ keep p (sort_slice ss)
  unfolding sort_slice keep
  sort_slice-keep p [] = refl
  sort_slice-keep p (s ∷ ss) = elim (Bool-cases (p s)) [
    | inl e ↦ rw e (
        ap (insert s) (sort_slice-keep p ss)
        ∙ sym (keep-insert p s (sort_slice ss) e (sort_slice-IsSorted ss)))
    | inr e ↦ rw e (sort_slice-keep p ss ∙ sym (keep-insert_drop p s (sort_slice ss) e))
  ]

  pub IsSorted-append :
      (ss ts : List (Sequence F)) → IsSorted ss → IsSorted ts → AllBelow ss ts → IsSorted (ss ++ ts)
  IsSorted-append [] ts h k b = k
  IsSorted-append (s ∷ []) [] h k b = h
  IsSorted-append (s ∷ []) (t ∷ ts) h k b = (omega arith, k)
  IsSorted-append (s ∷ s' ∷ ss) ts (h, hs) k (b, bs) = (h, IsSorted-append (s' ∷ ss) ts hs k bs)

  insert-All :
      (P : Sequence F → Type 0) (s : Sequence F) (ss : List (Sequence F))
      → P s
      → All P ss
      → All P (insert s ss)
  unfolding insert
  insert-All P s [] h k = (h, tt)
  insert-All P s (t ∷ ts) h (k, ks) = elim (Bool-cases (leb_ℤ (sequence_id s) (sequence_id t))) [
    | inl e ↦ rw e (h, (k, ks))
    | inr e ↦ rw e (k, insert-All P s ts h ks)
  ]

  pub sort_slice-All :
      (P : Sequence F → Type 0) (ss : List (Sequence F)) → All P ss → All P (sort_slice ss)
  unfolding sort_slice
  sort_slice-All P [] h = tt
  sort_slice-All P (s ∷ ss) (h, hs) = insert-All P s (sort_slice ss) h (sort_slice-All P ss hs)
