-- ===== src/Hub/Rounds.antt =====
-- What a broadcast does to the connections.
use vda.Prelude.{
  ℕ, suc, Bool, List, [], ◌∷◌, ◌++◌, ◌==◌, ◌≡◌, ◌≢◌, refl, ◌∙◌, sym, ap, All, All-append, arith,
  if◌then◌else◌, Bool-cases, inl, inr,
}
use vda.Hub.{remove, remove_all, dead_of}

-- No connection stands in the list twice.
abbrev pub IsDistinct : List ℕ → Type 0
IsDistinct [] = Unit {0}
IsDistinct (c ∷ rest) = All (λ d. d ≢ c) rest × IsDistinct rest

-- The connections whose write succeeds.
pub alive_of : (ℕ → ℕ → Bool) → ℕ → List ℕ → List ℕ
alive_of fails i [] = []
alive_of fails i (c ∷ rest) =
    let later = alive_of fails (suc i) rest in if fails i c then later else c ∷ later

dead_of-All :
    (P : ℕ → Type 0) (fails : ℕ → ℕ → Bool) (i : ℕ) (conns : List ℕ)
    → All P conns
    → All P (dead_of fails i conns)
unfolding dead_of
dead_of-All P fails i [] all = tt
dead_of-All P fails i (c ∷ rest) (p, all) = elim (Bool-cases (fails i c)) [
  | inl e ↦ rw e (p, dead_of-All P fails (suc i) rest all)
  | inr e ↦ rw e (dead_of-All P fails (suc i) rest all)
]

pub alive_of-All :
    (P : ℕ → Type 0) (fails : ℕ → ℕ → Bool) (i : ℕ) (conns : List ℕ)
    → All P conns
    → All P (alive_of fails i conns)
unfolding alive_of
alive_of-All P fails i [] all = tt
alive_of-All P fails i (c ∷ rest) (p, all) = elim (Bool-cases (fails i c)) [
  | inl e ↦ rw e (alive_of-All P fails (suc i) rest all)
  | inr e ↦ rw e (p, alive_of-All P fails (suc i) rest all)
]

pub remove-All : (P : ℕ → Type 0) (c : ℕ) (conns : List ℕ) → All P conns → All P (remove c conns)
unfolding remove
remove-All P c [] all = tt
remove-All P c (d ∷ rest) (p, all) = elim (Bool-cases (d == c)) [
  | inl e ↦ rw e all
  | inr e ↦ rw e (p, remove-All P c rest all)
]

remove_other : (c d : ℕ) (conns : List ℕ) → d ≢ c → remove d (c ∷ conns) ≡ c ∷ remove d conns
unfolding remove
remove_other c d conns apart = ground arith

remove_first : (c : ℕ) (conns : List ℕ) → remove c (c ∷ conns) ≡ conns
unfolding remove
remove_first c conns = ground arith

remove_all_other :
    (c : ℕ) (dead conns : List ℕ)
    → All (λ d. d ≢ c) dead
    → remove_all dead (c ∷ conns) ≡ c ∷ remove_all dead conns
unfolding remove_all
remove_all_other c [] conns all = refl
remove_all_other c (d ∷ dead) conns (apart, all) =
    ap (remove_all dead) (remove_other c d conns apart)
    ∙ remove_all_other c dead (remove d conns) all

-- A round keeps exactly the connections whose write succeeds.
pub remove_all-dead_of :
    (fails : ℕ → ℕ → Bool) (i : ℕ) (conns : List ℕ)
    → IsDistinct conns
    → remove_all (dead_of fails i conns) conns ≡ alive_of fails i conns
unfolding remove_all dead_of alive_of
remove_all-dead_of fails i [] distinct = refl
remove_all-dead_of fails i (c ∷ rest) (apart, distinct) = elim (Bool-cases (fails i c)) [
  | inl e ↦ rw e (
      ap (remove_all (dead_of fails (suc i) rest)) (remove_first c rest)
      ∙ remove_all-dead_of fails (suc i) rest distinct)
  | inr e ↦ rw e (
      remove_all_other c (dead_of fails (suc i) rest) rest
        (dead_of-All (λ d. d ≢ c) fails (suc i) rest apart)
      ∙ ap (λ l. c ∷ l) (remove_all-dead_of fails (suc i) rest distinct))
]

pub remove-IsDistinct : (c : ℕ) (conns : List ℕ) → IsDistinct conns → IsDistinct (remove c conns)
unfolding remove
remove-IsDistinct c [] distinct = tt
remove-IsDistinct c (d ∷ rest) (apart, distinct) = elim (Bool-cases (d == c)) [
  | inl e ↦ rw e distinct
  | inr e ↦ rw e (remove-All (λ x. x ≢ d) c rest apart, remove-IsDistinct c rest distinct)
]

pub alive_of-IsDistinct :
    (fails : ℕ → ℕ → Bool) (i : ℕ) (conns : List ℕ)
    → IsDistinct conns
    → IsDistinct (alive_of fails i conns)
unfolding alive_of
alive_of-IsDistinct fails i [] distinct = tt
alive_of-IsDistinct fails i (c ∷ rest) (apart, distinct) = elim (Bool-cases (fails i c)) [
  | inl e ↦ rw e (alive_of-IsDistinct fails (suc i) rest distinct)
  | inr e ↦ rw e (
    alive_of-All (λ x. x ≢ c) fails (suc i) rest apart,
    alive_of-IsDistinct fails (suc i) rest distinct,
  )
]

pub append-IsDistinct :
    (conns : List ℕ) (c : ℕ)
    → IsDistinct conns
    → All (λ d. d ≢ c) conns
    → IsDistinct (conns ++ c ∷ [])
append-IsDistinct [] c distinct new = (tt, tt)
append-IsDistinct (d ∷ rest) c (apart, distinct) (other, new) = (
  All-append (λ x. x ≢ d) rest (c ∷ []) apart ((λ e. other (sym e), tt)),
  append-IsDistinct rest c distinct new,
)
