-- ===== src/Fleet/Dispatcher/Steps.antt =====
-- `release`, `buildOrder` and `clampEnd` on a route released up to an index.
use vda.Prelude.{
  ℕ, suc, ◌+◌, ◌-◌, ◌≤◌, ◌≡◌, refl, some, List, map, take, drop, length, arith, ap, ◌∙◌, ltb,
  if◌then◌else◌, Bool-cases, inl, inr,
}
use vda.Prelude.Int.{pos, ◌+ℤ◌}
use vda.Models.Order.{Node, Edge}
use vda.Fleet.Experiments.{no_header}
use vda.Fleet.Dispatcher.{
  Dispatcher, released_node, released_edge, release_range, release, rounds, slice, edges_between,
  build_order, clamp_end,
}
use vda.Fleet.Dispatcher.Plan.{mark}
use vda.Fleet.Dispatcher.Marking.{release_range-mark, length-mark, slice-mark}

pub pos-+ℤ : (a b : ℕ) → pos a +ℤ pos b ≡ pos (a + b)
unfolding ◌+ℤ◌
pos-+ℤ a b = ground arith

-- A slice between two indices in range.
slice_in_range :
    {A : Type 0} (xs : List A) (i j : ℕ)
    → i ≤ j
    → j ≤ length xs
    → slice xs (pos i) (pos j) ≡ some (take (j - i) (drop i xs))
unfolding slice
slice_in_range xs i j h k = ground arith

-- A slice of a route that is released up to the slice's end.
slice_released :
    {A : Type 0} (f : A → A) (xs : List A) (i k m : ℕ)
    → m ≡ i + k
    → m ≤ length xs
    → slice (mark f m xs) (pos i) (pos m) ≡ some (map f (take k (drop i xs)))
slice_released f xs i k m e h =
    slice_in_range (mark f m xs) i m (omega arith) (rw (length-mark f m xs) h)
    ∙ ap (λ n. some (take n (drop i (mark f m xs)))) (omega arith)
    ∙ ap some (slice-mark f k i m xs e)

rounds_lem : (i j m : ℕ) → j ≡ m → rounds (pos i) (pos j) ≡ m - i
rounds_lem i j m e = omega arith

-- A loop of `release` over a list that is released up to where the loop starts.
released_range :
    {A : Type 0} (f : A → A) (xs ys : List A) (i m n : ℕ)
    → ys ≡ mark f i xs
    → n ≡ m - i
    → i ≤ m
    → m ≤ length xs
    → release_range f n i ys ≡ some (mark f m xs)
released_range f xs ys i m n ey en low high =
    let same : i + (m - i) ≡ m = omega arith in
    rw (ey, en) (rw same at (release_range-mark f (m - i) i xs (omega arith)))

-- The edges between two indices, of which none are sliced where the two are the same.
edges_released :
    {F : Type 0} (d : Dispatcher F) (es : List (Edge F)) (i k t : ℕ)
    → t ≡ i + k
    → d.edges ≡ mark released_edge t es
    → t ≤ length es
    → edges_between d (pos i) (pos t) ≡ some (map released_edge (take k (drop i es)))
edges_released d es i k t e ee h = elim (Bool-cases (ltb i t)) [
  | inl l ↦
      let taken : slice d.edges (pos i) (pos t) ≡ some (map released_edge (take k (drop i es))) =
        ap (λ xs. slice xs (pos i) (pos t)) ee ∙ slice_released released_edge es i k t e h in
      ground (arith, taken)
  | inr l ↦ let none_left : k ≡ 0 = ground arith in rw none_left (ground arith)
]

module _ {F : Type 0} (d : Dispatcher F) (ns : List (Node F)) (es : List (Edge F)) where
  pub release_lem :
      (i t : ℕ)
      → d.nodes ≡ mark released_node i ns
      → d.edges ≡ mark released_edge (i - 1) es
      → i ≤ suc t
      → suc t ≤ length ns
      → t ≤ length es
      → release d i (pos t)
        ≡ some (record d { nodes = mark released_node (suc t) ns; edges = mark released_edge t es })
  unfolding release
  release_lem i t en ee low hn he =
      let nodes : release_range released_node (rounds (pos i) (pos t +ℤ pos 1)) i d.nodes
          ≡ some (mark released_node (suc t) ns) =
        released_range released_node ns d.nodes i (suc t) _ en
          (ap (rounds (pos i)) (pos-+ℤ t 1) ∙ rounds_lem i (t + 1) (suc t) (omega arith)) low hn in
      let edges : release_range released_edge (rounds (pos (i - 1)) (pos t)) (i - 1) d.edges
          ≡ some (mark released_edge t es) =
        released_range released_edge es d.edges (i - 1) t _ ee (rounds_lem (i - 1) t t refl)
          (omega arith) he in
      rw (nodes, edges)

  pub build_order_lem :
      (i k t u : ℕ)
      → t ≡ i + k
      → d.nodes ≡ mark released_node (suc t) ns
      → d.edges ≡ mark released_edge t es
      → suc t ≤ length ns
      → t ≤ length es
      → build_order d (pos i) (pos t) (pos u)
        ≡ some (record {
          header = no_header;
          order_id = d.order_id;
          order_update_id = pos u;
          order_description = "";
          nodes = map released_node (take (suc k) (drop i ns));
          edges = map released_edge (take k (drop i es));
        })
  unfolding build_order
  build_order_lem i k t u e en ee hn he =
      let nodes : slice d.nodes (pos i) (pos t +ℤ pos 1)
          ≡ some (map released_node (take (suc k) (drop i ns))) =
        ap (slice d.nodes (pos i)) (pos-+ℤ t 1 ∙ ap pos (omega arith))
        ∙ ap (λ xs. slice xs (pos i) (pos (suc t))) en
        ∙ slice_released released_node ns i (suc k) (suc t) (omega arith) hn in
      let edges : edges_between d (pos i) (pos t) ≡ some (map released_edge (take k (drop i es))) =
        edges_released d es i k t e ee he in
      rw (nodes, edges)

  pub clamp_end_lem :
      (n m : ℕ) → length d.nodes ≡ suc n → clamp_end d (pos m) ≡ pos (if ltb n m then n else m)
  unfolding clamp_end
  clamp_end_lem n m e = ground (arith, e)
