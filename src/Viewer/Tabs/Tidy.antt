-- ===== src/Viewer/Tabs/Tidy.antt =====
-- Whom the hub writes to.
use vda.Prelude.{
  ℕ, Bool, true, false, List, [], ◌∷◌, ◌≡◌, ◌≢◌, ◌⊎◌, refl, inl, inr, arith, All, All-map,
  All-append, All-both, Bool-cases, ◌==◌,
}
use vda.Prelude.Text.{String}
use vda.Hub.{register, unregister, broadcast, remove}
use vda.Hub.Rounds.{
  IsDistinct, alive_of-All, remove-All, remove_all-dead_of, remove-IsDistinct, alive_of-IsDistinct,
  append-IsDistinct,
}
use vda.Viewer.Tabs.{
  Tabs, open_tab, read_tab, on_message, Step, opens, reads, hears, Reach, start, later,
}

abbrev pub Member : ℕ → List ℕ → Type 0
Member c [] = ⊥
Member c (d ∷ rest) = (c ≡ d) ⊎ Member c rest

Member-ne : (c d : ℕ) (xs : List ℕ) → All (λ x. x ≢ d) xs → Member c xs → c ≢ d
Member-ne c d [] all m = absurd m
Member-ne c d (x ∷ xs) (h, all) (inl e) = rw e h
Member-ne c d (x ∷ xs) (h, all) (inr m) = Member-ne c d xs all m

Member-remove : (c d : ℕ) (xs : List ℕ) → c ≢ d → Member c xs → Member c (remove d xs)
unfolding remove
Member-remove c d [] apart m = absurd m
Member-remove c d (x ∷ xs) apart m = elim (Bool-cases (x == d)) [
  | inr e ↦ rw e (elim m [ inl q ↦ inl q | inr m' ↦ inr (Member-remove c d xs apart m') ])
  | inl e ↦ rw e (elim m [ inl q ↦ absurd (ground arith) | inr m' ↦ m' ])
]

remove-gone : (d : ℕ) (xs : List ℕ) → IsDistinct xs → All (λ x. x ≢ d) (remove d xs)
unfolding remove
remove-gone d [] distinct = tt
remove-gone d (x ∷ xs) (apart, distinct) = elim (Bool-cases (x == d)) [
  | inl e ↦ let same : x ≡ d = ground arith in rw e (rw (← same) apart)
  | inr e ↦ rw e (ground arith, remove-gone d xs distinct)
]

module _ {M : Type 0} where
  -- Each connection stands in the hub once, and its handler is still reading.
  pub record IsTidy (y : Tabs M) : Type 0 where
    pub once : IsDistinct y.hub.conns
    pub read : All (λ c. Member c y.reading) y.hub.conns

  open-IsTidy :
      (y : Tabs M) (upgraded : Bool) (order : List (String × M) → List (String × M)) (conn : ℕ)
      → All (λ c. c ≢ conn) y.reading
      → IsTidy y
      → IsTidy (open_tab upgraded order y conn).0
  unfolding open_tab register
  open-IsTidy y false order conn fresh t = t
  open-IsTidy y true order conn fresh t = record {
    once =
        append-IsDistinct y.hub.conns conn t.once
          (All-map y.hub.conns (λ c m. Member-ne c conn y.reading fresh m) t.read);
    read =
        All-append (λ c. Member c (conn ∷ y.reading)) y.hub.conns (conn ∷ [])
          (All-map y.hub.conns (λ c m. inr m) t.read) (inl refl, tt);
  }

  read-IsTidy : (y : Tabs M) (fails : Bool) (conn : ℕ) → IsTidy y → IsTidy (read_tab fails y conn)
  unfolding read_tab unregister
  read-IsTidy y false conn t = t
  read-IsTidy y true conn t = record {
    once = remove-IsDistinct conn y.hub.conns t.once;
    read =
        All-map (remove conn y.hub.conns) (λ c (m, apart). Member-remove c conn y.reading apart m)
          (All-both (λ c. Member c y.reading) (λ c. c ≢ conn) (remove conn y.hub.conns)
            (remove-All (λ c. Member c y.reading) conn y.hub.conns t.read)
            (remove-gone conn y.hub.conns t.once));
  }

  hear-IsTidy :
      (y : Tabs M) (fails : ℕ → ℕ → Bool) (topic : String) (msg : M)
      → IsTidy y
      → IsTidy (on_message fails y topic msg).0
  unfolding on_message broadcast
  hear-IsTidy y fails topic msg t =
      let kept = remove_all-dead_of fails 0 y.hub.conns t.once in
      record {
        once = rw kept (alive_of-IsDistinct fails 0 y.hub.conns t.once);
        read = rw kept (alive_of-All (λ c. Member c y.reading) fails 0 y.hub.conns t.read);
      }

  Step-IsTidy : (y z : Tabs M) → IsTidy y → Step y z → IsTidy z
  Step-IsTidy y _ t (opens upgraded order conn fresh) = open-IsTidy y upgraded order conn fresh t
  Step-IsTidy y _ t (reads fails conn) = read-IsTidy y fails conn t
  Step-IsTidy y _ t (hears fails topic msg) = hear-IsTidy y fails topic msg t

  -- Whatever tabs are opened, reads succeed or fail and messages come: each connection stands in the hub
  -- at most once, and only while its handler is in the read loop.
  pub tabs-IsTidy : (y : Tabs M) → Reach y → IsTidy y
  tabs-IsTidy _ start = record { once = tt; read = tt }
  tabs-IsTidy _ (later {y = y} reach step) = Step-IsTidy y _ (tabs-IsTidy y reach) step
