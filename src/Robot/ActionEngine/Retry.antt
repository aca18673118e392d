-- ===== src/Robot/ActionEngine/Retry.antt =====
-- `Retry` and `SkipRetry`: which action they resolve, and what an error leaves behind.
use vda.Prelude.{
  ℕ, ◌≡◌, refl, ◌≢◌, ◌↔◌, Option, none, some, [], ◌∷◌, ◌++◌, All, arith, Bool-cases, inl, inr,
  if◌then◌else◌, ap,
}
use vda.Prelude.Text.{String, str_eq, eq_iff}
use vda.Errors.{VdaError, invalid_instant_action}
use vda.Models.State.{ActionStatus, running, retriable, failed}
use vda.Robot.ActionEngine.{QueuedAction, Queue, is_retriable, resolve, retry, skip_retry}

-- The status of the first action with the id.
abbrev pub first_status : String → Queue → Option ActionStatus
first_status id [] = none
first_status id (qa ∷ rest) =
    let later = first_status id rest in
    if str_eq qa.action.action_id id then some qa.status else later

-- The first action with the id, which was RETRIABLE, has been replaced, and nothing else.
pub record ResolvedAt (f : QueuedAction → QueuedAction) (id : String) (q q' : Queue) : Type 0 where
  pub front : Queue
  pub found : QueuedAction
  pub back : Queue
  pub before : q ≡ front ++ (found ∷ back)
  pub after : q' ≡ front ++ (f found ∷ back)
  pub is_first : All (λ x. x.action.action_id ≢ id) front
  pub has_id : found.action.action_id ≡ id
  pub was_retriable : found.status ≡ retriable

resolve_iff :
    (f : QueuedAction → QueuedAction) (id : String) (q : Queue)
    → ((resolve f id q).1 ≡ none) ↔ (first_status id q ≡ some retriable)
unfolding resolve
resolve_iff f id [] = ground arith
resolve_iff f id (qa ∷ rest) = ground (arith, resolve_iff f id rest)

resolve_error :
    (f : QueuedAction → QueuedAction) (id : String) (q : Queue) {x : VdaError}
    → (resolve f id q).1 ≡ some x
    → ((resolve f id q).0 ≡ q) × (x.error_type ≡ invalid_instant_action)
unfolding resolve
resolve_error f id [] h = ground arith
resolve_error f id (qa ∷ rest) {x} h = ground (arith, resolve_error f id rest {x = x})

resolve_at :
    (f : QueuedAction → QueuedAction) (id : String) (q : Queue)
    → (resolve f id q).1 ≡ none
    → ResolvedAt f id q (resolve f id q).0
unfolding resolve
resolve_at f id [] h = cc
resolve_at f id (qa ∷ rest) h = elim (Bool-cases (str_eq qa.action.action_id id)) [
  | inl e ↦ elim (Bool-cases (is_retriable qa.status)) [
    | inl r ↦ record {
      front = [];
      found = qa;
      back = rest;
      before = refl;
      after = rw (e, r);
      is_first = tt;
      has_id = (eq_iff _ _).0 e;
      was_retriable = ground arith;
    }
    | inr n ↦ ground arith
  ]
  | inr e ↦
      let at = resolve_at f id rest (rw e at h) in
      record {
        front = qa ∷ at.front;
        found = at.found;
        back = at.back;
        before = ap (◌∷◌ qa) at.before;
        after = rw e (ap (◌∷◌ qa) at.after);
        is_first = (ground (arith, eq_iff qa.action.action_id id), at.is_first);
        has_id = at.has_id;
        was_retriable = at.was_retriable;
      }
]

abbrev pub run_again : ℕ → QueuedAction → QueuedAction
run_again now qa = record qa { status = running; started_at = now }

abbrev pub give_up : QueuedAction → QueuedAction
give_up qa = record qa { status = failed }

-- What a resolution by `f` may come to: the action is resolved exactly when the first one with the id
-- is RETRIABLE; otherwise there is an INVALID_INSTANT_ACTION and the queue is as it was.
abbrev pub IsOutcome :
    (QueuedAction → QueuedAction) → String → Queue → Queue → Option VdaError → Type 0
IsOutcome f id q q' none = (first_status id q ≡ some retriable) × ResolvedAt f id q q'
IsOutcome f id q q' (some x) =
    (first_status id q ≢ some retriable) × (q' ≡ q) × (x.error_type ≡ invalid_instant_action)

resolve-IsOutcome :
    (f : QueuedAction → QueuedAction) (id : String) (q : Queue) (r : Option VdaError)
    → (resolve f id q).1 ≡ r
    → IsOutcome f id q (resolve f id q).0 r
resolve-IsOutcome f id q none e = ((resolve_iff f id q).0 e, resolve_at f id q e)
resolve-IsOutcome f id q (some x) e =
    (λ h. cc ((resolve_iff f id q).1 h), (resolve_error f id q e).0, (resolve_error f id q e).1)

-- `Retry` sets the first action with the id back to RUNNING, with a new start time, exactly when that
-- action is RETRIABLE. Otherwise it returns an INVALID_INSTANT_ACTION and changes nothing.
pub retry-IsOutcome :
    (now : ℕ) (id : String) (q : Queue)
    → IsOutcome (run_again now) id q (retry now id q).0 (retry now id q).1
unfolding retry
retry-IsOutcome now id q = resolve-IsOutcome (run_again now) id q _ refl

-- `SkipRetry` sets the first action with the id to FAILED exactly when that action is RETRIABLE.
-- Otherwise it returns an INVALID_INSTANT_ACTION and changes nothing.
pub skip_retry-IsOutcome :
    (id : String) (q : Queue) → IsOutcome give_up id q (skip_retry id q).0 (skip_retry id q).1
unfolding skip_retry
skip_retry-IsOutcome id q = resolve-IsOutcome give_up id q _ refl
