-- ===== src/Hub/History.antt =====
-- The hub after any calls of its methods.
use mathlib.Core.Path.{subst}
use vda.Prelude.{
  ℕ, Bool, Option, none, some, List, [], ◌∷◌, map, ◌≡◌, ◌≢◌, ◌↔◌, ◌⊎◌, refl, sym, All, arith,
  if◌then◌else◌, Bool-cases, inl, inr,
}
use vda.Prelude.Text.{String, str_eq, eq_iff}
use vda.Hub.{Hub, new_hub, put, register, unregister, broadcast}
use vda.Hub.Latest.{Holds, OneEach, put-OneEach, put-same, put-other}
use vda.Hub.Rounds.{
  IsDistinct, alive_of, remove_all-dead_of, remove-IsDistinct, alive_of-IsDistinct,
  append-IsDistinct,
}

-- A call, with what it leaves open.
pub data Call (M : Type 0) : Type 0 where
  registers : (order : List (String × M) → List (String × M)) → (conn : ℕ) → Call M
  unregisters : (conn : ℕ) → Call M
  broadcasts : (fails : ℕ → ℕ → Bool) → (topic : String) → (msg : M) → Call M

module _ {M : Type 0} where
  abbrev pub call : Hub M → Call M → Hub M
  call hub (registers order conn) = (register order hub conn).0
  call hub (unregisters conn) = unregister hub conn
  call hub (broadcasts fails topic msg) = (broadcast fails hub topic msg).0

  -- The calls, the latest first.
  unfoldable pub after : List (Call M) → Hub M
  unfolding register unregister broadcast
  after [] = new_hub
  after (c ∷ earlier) = call (after earlier) c

  -- Each connection that registers is new then.
  abbrev pub IsFresh : List ℕ → Call M → Type 0
  IsFresh conns (registers order conn) = All (λ d. d ≢ conn) conns
  IsFresh conns _ = Unit {0}

  unfoldable pub AllFresh : List (Call M) → Type 0
  AllFresh [] = Unit {0}
  AllFresh (c ∷ earlier) = IsFresh (after earlier).conns c × AllFresh earlier

  -- The message that was last broadcast on the topic.
  unfoldable pub last_message : String → List (Call M) → Option M
  last_message topic [] = none
  last_message topic (broadcasts fails t msg ∷ earlier) =
      let before = last_message topic earlier in if str_eq topic t then some msg else before
  last_message topic (registers order conn ∷ earlier) = last_message topic earlier
  last_message topic (unregisters conn ∷ earlier) = last_message topic earlier

  pub after-IsDistinct : (calls : List (Call M)) → AllFresh calls → IsDistinct (after calls).conns
  unfolding after AllFresh register unregister broadcast
  after-IsDistinct [] fresh = tt
  after-IsDistinct (registers order conn ∷ earlier) (new, fresh) =
      append-IsDistinct (after earlier).conns conn (after-IsDistinct earlier fresh) new
  after-IsDistinct (unregisters conn ∷ earlier) (_, fresh) =
      remove-IsDistinct conn (after earlier).conns (after-IsDistinct earlier fresh)
  after-IsDistinct (broadcasts fails t msg ∷ earlier) (_, fresh) =
      let distinct = after-IsDistinct earlier fresh in
      rw (remove_all-dead_of fails 0 (after earlier).conns distinct)
        (alive_of-IsDistinct fails 0 (after earlier).conns distinct)

  -- After any calls, where each connection that registers is new then, a broadcast leaves exactly the
  -- connections whose write succeeds, in their order.
  pub broadcast_lem :
      (calls : List (Call M)) (fails : ℕ → ℕ → Bool) (topic : String) (msg : M)
      → AllFresh calls
      → (broadcast fails (after calls) topic msg).0.conns ≡ alive_of fails 0 (after calls).conns
  unfolding broadcast
  broadcast_lem calls fails topic msg fresh =
      remove_all-dead_of fails 0 (after calls).conns (after-IsDistinct calls fresh)

  after-OneEach : (calls : List (Call M)) → OneEach (after calls).latest
  unfolding after register unregister broadcast
  after-OneEach [] = tt
  after-OneEach (registers order conn ∷ earlier) = after-OneEach earlier
  after-OneEach (unregisters conn ∷ earlier) = after-OneEach earlier
  after-OneEach (broadcasts fails t msg ∷ earlier) =
      put-OneEach t msg (after earlier).latest (after-OneEach earlier)

  after-Holds :
      (calls : List (Call M)) (topic : String) (msg : M)
      → Holds topic msg (after calls).latest ↔ (last_message topic calls ≡ some msg)
  unfolding after register unregister broadcast last_message
  after-Holds [] topic msg = (λ h. absurd h, λ e. cc e)
  after-Holds (registers order conn ∷ earlier) topic msg = after-Holds earlier topic msg
  after-Holds (unregisters conn ∷ earlier) topic msg = after-Holds earlier topic msg
  after-Holds (broadcasts fails t m ∷ earlier) topic msg = elim (Bool-cases (str_eq topic t)) [
    | inl e ↦
        let same : topic ≡ t = (eq_iff topic t).0 e in
        let entry = put-same t m msg (after earlier).latest (after-OneEach earlier) in
        rw e (
          λ h. cc (entry.0 (subst (λ x. Holds x msg (put t m (after earlier).latest)) same h)),
          λ q.
              subst (λ x. Holds x msg (put t m (after earlier).latest)) (sym same) (entry.1 (cc q)),
        )
    | inr e ↦
        let apart : topic ≢ t = ground (arith, eq_iff topic t) in
        let entry = put-other topic t m msg (after earlier).latest apart in
        let before = after-Holds earlier topic msg in
        rw e (λ h. before.0 (entry.0 h), λ h. entry.1 (before.1 h))
  ]

  -- The message is written to the connection.
  abbrev pub Writes : ℕ → M → List (ℕ × M) → Type 0
  Writes conn msg [] = ⊥
  Writes conn msg ((c, m) ∷ rest) = ((conn ≡ c) × (msg ≡ m)) ⊎ Writes conn msg rest

  Writes-map :
      (conn : ℕ) (msg : M) (l : List (String × M))
      → Writes conn msg (map (λ entry. (conn, entry.1)) l) ↔ ((t : String) × Holds t msg l)
  Writes-map conn msg [] = (λ h. absurd h, λ (t, h). absurd h)
  Writes-map conn msg ((k, m) ∷ rest) =
      let later = Writes-map conn msg rest in
      (
        λ w. elim w [
          | inl (_, e) ↦ (k, inl (refl, e))
          | inr w' ↦ let (t, h) = later.0 w' in (t, inr h)
        ],
        λ (t, h). elim h [ inl (_, e) ↦ inl (refl, e) | inr h' ↦ inr (later.1 (t, h')) ],
      )

  -- Whatever was called before, and in whatever order Go goes over the map, a connection that registers
  -- is written exactly the messages that are the last ones of their topics.
  pub register-Writes :
      (calls : List (Call M)) (order : List (String × M) → List (String × M)) (conn : ℕ) (msg : M)
      → ((l : List (String × M)) (t : String) (m : M) → Holds t m (order l) ↔ Holds t m l)
      → Writes conn msg (register order (after calls) conn).1
        ↔ ((t : String) × (last_message t calls ≡ some msg))
  unfolding register
  register-Writes calls order conn msg visits =
      let written = Writes-map conn msg (order (after calls).latest) in
      (
        λ h.
            let (t, held) = written.0 h in
            (t, (after-Holds calls t msg).0 ((visits (after calls).latest t msg).0 held)),
        λ (t, e).
            written.1 (t, (visits (after calls).latest t msg).1 ((after-Holds calls t msg).1 e)),
      )
