-- ===== src/Hub.antt =====
-- common/hub.go: the browser connections that each message goes to, and the latest message of each topic.
-- A connection is a pointer, given by a number. A method holds the mutex, so it is one step; it returns
-- the writes that it makes. Which writes fail is an argument.
pub mod Rounds
pub mod Latest
pub mod History
use vda.Prelude.{ℕ, suc, Bool, List, [], ◌∷◌, ◌++◌, map, ◌==◌, if◌then◌else◌}
use vda.Prelude.Text.{String, str_eq}

-- `latest` is a map: no topic stands in it twice.
pub record Hub (M : Type 0) : Type 0 where
  pub conns : List ℕ
  pub latest : List (String × M)

-- The first occurrence goes.
unfoldable pub remove : ℕ → List ℕ → List ℕ
remove conn [] = []
remove conn (c ∷ rest) = let later = remove conn rest in if c == conn then rest else c ∷ later

-- The connections whose write fails, in the order of the loop: `fails` has the write's place in it.
unfoldable pub dead_of : (ℕ → ℕ → Bool) → ℕ → List ℕ → List ℕ
dead_of fails i [] = []
dead_of fails i (c ∷ rest) =
    let later = dead_of fails (suc i) rest in if fails i c then c ∷ later else later

unfoldable pub remove_all : List ℕ → List ℕ → List ℕ
unfolding remove
remove_all [] conns = conns
remove_all (c ∷ dead) conns = remove_all dead (remove c conns)

module _ {M : Type 0} where
  abbrev pub new_hub : Hub M
  new_hub = record { conns = []; latest = [] }

  -- `hub.latest[topic] = msg`.
  unfoldable pub put : String → M → List (String × M) → List (String × M)
  put topic msg [] = (topic, msg) ∷ []
  put topic msg ((t, m) ∷ rest) =
      let later = put topic msg rest in if str_eq topic t then (t, msg) ∷ rest else (t, m) ∷ later

  -- Go leaves open in which order it goes over a map: `order` arranges the entries.
  unfoldable pub register :
      (List (String × M) → List (String × M)) → Hub M → ℕ → Hub M × List (ℕ × M)
  register order hub conn = (
    record hub { conns = hub.conns ++ conn ∷ [] },
    map (λ entry. (conn, entry.1)) (order hub.latest),
  )

  unfoldable pub unregister : Hub M → ℕ → Hub M
  unregister hub conn = record hub { conns = remove conn hub.conns }

  unfoldable pub broadcast : (ℕ → ℕ → Bool) → Hub M → String → M → Hub M × List (ℕ × M)
  unfolding put dead_of remove_all
  broadcast fails hub topic msg = (
    record {
      conns = remove_all (dead_of fails 0 hub.conns) hub.conns;
      latest = put topic msg hub.latest;
    },
    map (λ c. (c, msg)) hub.conns,
  )
