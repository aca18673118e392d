-- ===== src/Validation/Numbers.antt =====
-- The sequenceIds of a route: parity, order, and what sorting carries back to the order's own lists.
use vda.Prelude.{List, [], ◌∷◌, All, arith, Bool-cases, inl, inr}
use vda.Prelude.Int.{ℤ, ◌≤ℤ◌, IsEven, leb_ℤ}
use vda.Models.Order.{Node}
use vda.Validation.Sorting.{Sequence, of_node, of_edge, sequence_id, insert, sort_slice}
use vda.Validation.Route.{RouteFrom, IsRoute}
use vda.Validation.Decides.{Link-parity, Link-lt}

module _ {F : Type 0} where
  insert-All_of :
      (P : Sequence F → Type 0) (s : Sequence F) (ss : List (Sequence F))
      → All P (insert s ss)
      → P s × All P ss
  unfolding insert
  insert-All_of P s [] h = h
  insert-All_of P s (t ∷ ts) h = elim (Bool-cases (leb_ℤ (sequence_id s) (sequence_id t))) [
    | inl e ↦ rw e at h
    | inr e ↦
        let (k, ks) : P t × All P (insert s ts) = rw e at h in
        let (hs, hts) = insert-All_of P s ts ks in (hs, (k, hts))
  ]

  -- What holds of the sorted elements holds of the elements.
  pub sort_slice-All_of :
      (P : Sequence F → Type 0) (ss : List (Sequence F)) → All P (sort_slice ss) → All P ss
  unfolding sort_slice
  sort_slice-All_of P [] h = tt
  sort_slice-All_of P (s ∷ ss) h =
      let (k, ks) = insert-All_of P s (sort_slice ss) h in (k, sort_slice-All_of P ss ks)

  abbrev pub HasParity : Sequence F → Type 0
  HasParity (of_node n) = IsEven n.sequence_id
  HasParity (of_edge e) = ¬ IsEven e.sequence_id

  RouteFrom-parity :
      (n : Node F) (rest : List (Sequence F))
      → IsEven n.sequence_id
      → RouteFrom n rest
      → All HasParity rest
  RouteFrom-parity n [] even r = tt
  RouteFrom-parity n (of_node m ∷ rest) even r = absurd r
  RouteFrom-parity n (of_edge e ∷ []) even r = absurd r
  RouteFrom-parity n (of_edge e ∷ of_edge f ∷ rest) even r = absurd r
  RouteFrom-parity n (of_edge e ∷ of_node m ∷ rest) even (l, r) =
      let (even', odd) = Link-parity n e m even l in (odd, (even', RouteFrom-parity m rest even' r))

  pub IsRoute-parity : (ss : List (Sequence F)) → IsRoute ss → All HasParity ss
  IsRoute-parity [] r = tt
  IsRoute-parity (of_edge e ∷ ss) r = absurd r
  IsRoute-parity (of_node n ∷ ss) (even, r) = (even, RouteFrom-parity n ss even r)

  pub RouteFrom-above :
      (n : Node F) (rest : List (Sequence F)) (d : ℤ)
      → d ≤ℤ n.sequence_id
      → RouteFrom n rest
      → All (λ s. d ≤ℤ sequence_id s) rest
  RouteFrom-above n [] d h r = tt
  RouteFrom-above n (of_node m ∷ rest) d h r = absurd r
  RouteFrom-above n (of_edge e ∷ []) d h r = absurd r
  RouteFrom-above n (of_edge e ∷ of_edge f ∷ rest) d h r = absurd r
  RouteFrom-above n (of_edge e ∷ of_node m ∷ rest) d h (l, r) =
      let (low, high) = Link-lt n e m l in
      (omega arith, (omega arith, RouteFrom-above m rest d (omega arith) r))
