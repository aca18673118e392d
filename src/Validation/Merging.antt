-- ===== src/Validation/Merging.antt =====
-- Sorting the elements of two orders at once, when the one ends below the other.
use mathlib.Core.List.{map-append}
use vda.Prelude.{◌≡◌, refl, ◌≢◌, List, [], ◌∷◌, ◌++◌, map, All, ap, ◌∙◌, sym, arith}
use vda.Prelude.Int.{◌<ℤ◌}
use vda.Models.Order.{Node, Edge}
use vda.Validation.Sorting.{Sequence, of_node, of_edge, sequence_id, insert, sort_slice}
use vda.Validation.Ordered.{AllBelow, insert_comm}
use vda.Validation.{sequence_of}

module _ {F : Type 0} where
  -- What `sort_slice` does to a list whose first part lies below an ordered rest.
  insert-append :
      (s : Sequence F) (ss ts : List (Sequence F))
      → All (λ t. sequence_id s <ℤ sequence_id t) ts
      → insert s (ss ++ ts) ≡ insert s ss ++ ts
  unfolding insert
  insert-append s [] [] h = refl
  insert-append s [] (t ∷ ts) h = ground arith
  insert-append s (u ∷ us) ts h = ground (arith, insert-append s us ts h)

  -- The elements of the first list, pushed into the second as sorting does.
  insert_all : List (Sequence F) → List (Sequence F) → List (Sequence F)
  insert_all [] ts = ts
  insert_all (s ∷ ss) ts = insert s (insert_all ss ts)

  sort_slice-append :
      (ss ts : List (Sequence F)) → sort_slice (ss ++ ts) ≡ insert_all ss (sort_slice ts)
  unfolding sort_slice insert_all
  sort_slice-append [] ts = refl
  sort_slice-append (s ∷ ss) ts = ap (insert s) (sort_slice-append ss ts)

  insert_all_below :
      (ss ts : List (Sequence F)) → AllBelow ss ts → insert_all ss ts ≡ sort_slice ss ++ ts
  unfolding sort_slice insert_all
  insert_all_below [] ts b = refl
  insert_all_below (s ∷ ss) ts (b, bs) =
      ap (insert s) (insert_all_below ss ts bs) ∙ insert-append s (sort_slice ss) ts b

  insert-insert_all :
      (s : Sequence F) (ss ts : List (Sequence F))
      → All (λ t. sequence_id s ≢ sequence_id t) ss
      → insert s (insert_all ss ts) ≡ insert_all ss (insert s ts)
  unfolding insert_all
  insert-insert_all s [] ts h = refl
  insert-insert_all s (t ∷ ss) ts (h, hs) =
      insert_comm s t (insert_all ss ts) h ∙ ap (insert t) (insert-insert_all s ss ts hs)

  -- Two lists without a number in common may be pushed in either order.
  insert_all_comm :
      (ss rs ts : List (Sequence F))
      → All (λ s. All (λ r. sequence_id s ≢ sequence_id r) rs) ss
      → insert_all ss (insert_all rs ts) ≡ insert_all rs (insert_all ss ts)
  unfolding insert_all
  insert_all_comm [] rs ts h = refl
  insert_all_comm (s ∷ ss) rs ts (h, hs) =
      ap (insert s) (insert_all_comm ss rs ts hs) ∙ insert-insert_all s rs (insert_all ss ts) h

  insert_all-append :
      (ss ts us : List (Sequence F)) → insert_all (ss ++ ts) us ≡ insert_all ss (insert_all ts us)
  unfolding insert_all
  insert_all-append [] ts us = refl
  insert_all-append (s ∷ ss) ts us = ap (insert s) (insert_all-append ss ts us)

  -- No element of the first list has the number of one of the second.
  abbrev pub Apart : List (Sequence F) → List (Sequence F) → Type 0
  Apart ss ts = All (λ s. All (λ t. sequence_id s ≢ sequence_id t) ts) ss

  -- Where the first nodes and edges lie below the second, and the edges of the first do not meet the
  -- nodes of the second, both are sorted one behind the other.
  pub sort_slice-sequence_of :
      (A A' : List (Node F)) (B B' : List (Edge F))
      → Apart (map of_node A') (map of_edge B)
      → AllBelow (sequence_of A B) (sort_slice (sequence_of A' B'))
      → sort_slice (sequence_of (A ++ A') (B ++ B'))
        ≡ sort_slice (sequence_of A B) ++ sort_slice (sequence_of A' B')
  sort_slice-sequence_of A A' B B' apart below =
      ap sort_slice (λ i. map-append of_node A A' i ++ map-append of_edge B B' i)
      ∙ sort_slice-append (map of_node A ++ map of_node A') (map of_edge B ++ map of_edge B')
      ∙ insert_all-append (map of_node A) (map of_node A') _
      ∙ ap (λ r. insert_all (map of_node A) (insert_all (map of_node A') r))
          (sort_slice-append (map of_edge B) (map of_edge B'))
      ∙ ap (insert_all (map of_node A))
          (insert_all_comm (map of_node A') (map of_edge B) (sort_slice (map of_edge B')) apart)
      ∙ sym (insert_all-append (map of_node A) (map of_edge B) _)
      ∙ ap (insert_all (sequence_of A B))
          (sym (sort_slice-append (map of_node A') (map of_edge B')))
      ∙ insert_all_below (sequence_of A B) _ below
