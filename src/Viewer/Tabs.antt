-- ===== src/Viewer/Tabs.antt =====
-- The browser tabs of the viewer: `wsHandler` and `onMessage` of viewer/main.go around the hub.
pub mod Tidy
use vda.Prelude.{
  ℕ, Bool, true, List, [], ◌∷◌, ◌++◌, ◌≡◌, ◌≢◌, ◌⊎◌, refl, inl, inr, arith, All, ◌==◌,
  if◌then◌else◌,
}
use vda.Prelude.Text.{String}
use vda.Hub.{Hub, new_hub, register, unregister, broadcast, remove}

-- The handler of one connection: `Upgrade` can refuse it; then the read loop runs until a read fails.
pub record Tabs (M : Type 0) : Type 0 where
  pub hub : Hub M
  pub reading : List ℕ

module _ {M : Type 0} where
  abbrev pub no_tabs : Tabs M
  no_tabs = record { hub = new_hub; reading = [] }

  -- `wsHandler` up to its read loop.
  unfoldable pub open_tab :
      Bool → (List (String × M) → List (String × M)) → Tabs M → ℕ → Tabs M × List (ℕ × M)
  unfolding register
  open_tab upgraded order y conn =
      if upgraded
      then (let (hub', writes) = register order y.hub conn in
          (record { hub = hub'; reading = conn ∷ y.reading }, writes))
      else (y, [])

  -- A round of the read loop. On an error the deferred calls run.
  unfoldable pub read_tab : Bool → Tabs M → ℕ → Tabs M
  unfolding unregister remove
  read_tab fails y conn =
      if fails then record { hub = unregister y.hub conn; reading = remove conn y.reading } else y

  -- `onMessage`, on a message from the broker.
  unfoldable pub on_message : (ℕ → ℕ → Bool) → Tabs M → String → M → Tabs M × List (ℕ × M)
  unfolding broadcast
  on_message fails y topic msg =
      let (hub', writes) = broadcast fails y.hub topic msg in (record y { hub = hub' }, writes)

  -- What happens to the viewer. A connection that is opened is new.
  pub data Step : Tabs M → Tabs M → Type 0 where
    opens :
        {y : Tabs M} (upgraded : Bool) (order : List (String × M) → List (String × M)) (conn : ℕ)
        → All (λ c. c ≢ conn) y.reading
        → Step y (open_tab upgraded order y conn).0
    reads : {y : Tabs M} (fails : Bool) (conn : ℕ) → Step y (read_tab fails y conn)
    hears :
        {y : Tabs M} (fails : ℕ → ℕ → Bool) (topic : String) (msg : M)
        → Step y (on_message fails y topic msg).0

  pub data Reach : Tabs M → Type 0 where
    start : Reach no_tabs
    later : {y z : Tabs M} → Reach y → Step y z → Reach z
