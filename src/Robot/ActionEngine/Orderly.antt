-- ===== src/Robot/ActionEngine/Orderly.antt =====
-- SINGLE and HARD actions run alone.
use vda.Prelude.{
  ℕ, suc, ◌≡◌, refl, Bool, true, false, not, ◌||◌, List, [], ◌∷◌, ◌++◌, map, keep, All, arith,
  Bool-cases, inl, inr, All-append, All-keep,
}
use vda.Prelude.Text.{String}
use vda.Models.Action.{Action}
use vda.Robot.ActionEngine.{
  Moment, QueuedAction, Queue, queued, enqueue, is_active, is_waiting, is_terminal, is_exclusive,
  is_parallel, visit, complete_if_due, start, walk, drop_terminal, advance, resolve, retry,
  skip_retry, cancel_all,
}

-- No action is active.
abbrev pub Resting : Queue → Type 0
Resting = All (λ qa. is_active qa.status ≡ false)

-- `earlier` says whether an action in front is not terminal. An active SINGLE or HARD action has only
-- terminal actions in front and no active one behind; behind a waiting action that starts alone, none
-- is active.
abbrev pub Orderly : Bool → Queue → Type 0
Orderly earlier [] = Unit {0}
Orderly earlier (qa ∷ rest) =
    (is_active qa.status ≡ true
      → is_exclusive qa.action.blocking_type ≡ true
      → (earlier ≡ false) × Resting rest)
    × (is_waiting qa.status ≡ true → is_parallel qa.action.blocking_type ≡ false → Resting rest)
    × Orderly (earlier || not (is_terminal qa.status)) rest

Resting-Orderly : (b : Bool) (q : Queue) → Resting q → Orderly b q
Resting-Orderly b [] h = tt
Resting-Orderly b (qa ∷ rest) (h, hs) = (λ a. cc, λ w p. hs, Resting-Orderly _ rest hs)

Orderly-mono : (b c : Bool) (q : Queue) → (c ≡ true → b ≡ true) → Orderly b q → Orderly c q
Orderly-mono b c [] h o = tt
Orderly-mono b c (qa ∷ rest) h (o, w, os) = (
  λ a e. let (clear, rests) = o a e in (ground arith, rests),
  w,
  Orderly-mono _ _ rest (ground arith) os,
)

-- A visit completes a running action or leaves the action alone.
record Visited (qa new : QueuedAction) : Type 0 where
  same : new.action ≡ qa.action
  was_active : is_active new.status ≡ true → is_active qa.status ≡ true
  was_waiting : is_waiting new.status ≡ true → is_waiting qa.status ≡ true

visit-Visited : (m : Moment) (qa : QueuedAction) → Visited qa (visit m qa)
unfolding complete_if_due
visit-Visited m qa = ground arith

walk-Orderly :
    (at : ℕ → Moment) (i : ℕ) (b c : Bool) (q : Queue)
    → (b ≡ true → c ≡ true)
    → Orderly c q
    → Orderly b (walk at i b q)
unfolding walk start
walk-Orderly at i b c [] h o = tt
walk-Orderly at i b c (qa ∷ rest) h (o, w, os) =
    let v = visit-Visited (at i) qa in
    let on = walk-Orderly at (suc i) true (c || not (is_terminal qa.status)) rest in
    let past = walk-Orderly at (suc i) b (c || not (is_terminal qa.status)) rest in
    ground (arith, v, on, past, Resting-Orderly true rest, Resting-Orderly b rest)

drop_terminal-Orderly : (b : Bool) (q : Queue) → Orderly b q → Orderly b (drop_terminal q)
unfolding drop_terminal
drop_terminal-Orderly b [] o = tt
drop_terminal-Orderly b (qa ∷ rest) (o, w, os) = elim (Bool-cases (is_terminal qa.status)) [
  | inl e ↦ rw e (drop_terminal-Orderly b rest (Orderly-mono _ b rest (λ y. rw y) os))
  | inr e ↦ rw e (
    λ a x. ((o a x).0, keep_Resting rest (o a x).1),
    λ a p. keep_Resting rest (w a p),
    drop_terminal-Orderly (b || not (is_terminal qa.status)) rest os,
  )
]
  where
    keep_Resting : (q : Queue) → Resting q → Resting (keep (λ x. not (is_terminal x.status)) q)
    keep_Resting q h =
        All-keep (λ x. is_active x.status ≡ false) (λ x. not (is_terminal x.status)) q h

-- A pass keeps the queue orderly.
pub advance-Orderly : (at : ℕ → Moment) (q : Queue) → Orderly false q → Orderly false (advance at q)
unfolding advance
advance-Orderly at q o =
    walk-Orderly at 0 false false (drop_terminal q) (λ h. h) (drop_terminal-Orderly false q o)

queued-Resting : (actions : List Action) → Resting (map queued actions)
queued-Resting [] = tt
queued-Resting (a ∷ actions) = (refl, queued-Resting actions)

enqueue-Orderly :
    (b : Bool) (q : Queue) (actions : List Action) → Orderly b q → Orderly b (enqueue q actions)
unfolding enqueue
enqueue-Orderly b [] actions o = Resting-Orderly b _ (queued-Resting actions)
enqueue-Orderly b (qa ∷ rest) actions (o, w, os) = (
  λ a e. ((o a e).0, All-append _ rest (map queued actions) (o a e).1 (queued-Resting actions)),
  λ a p. All-append _ rest (map queued actions) (w a p) (queued-Resting actions),
  enqueue-Orderly _ rest actions os,
)

-- Resolving a RETRIABLE action keeps it active or ends it, and touches no other.
record Resolves (f : QueuedAction → QueuedAction) : Type 0 where
  same : (qa : QueuedAction) → (f qa).action ≡ qa.action
  not_waiting : (qa : QueuedAction) → is_waiting (f qa).status ≡ false

resolve-Resting :
    (f : QueuedAction → QueuedAction) (id : String) (q : Queue)
    → Resting q
    → Resting (resolve f id q).0
unfolding resolve
resolve-Resting f id [] h = tt
resolve-Resting f id (qa ∷ rest) (h, hs) = ground (arith, resolve-Resting f id rest hs)

resolve-Orderly :
    (f : QueuedAction → QueuedAction) (id : String) (b : Bool) (q : Queue)
    → Resolves f
    → Orderly b q
    → Orderly b (resolve f id q).0
unfolding resolve
resolve-Orderly f id b [] r o = tt
resolve-Orderly f id b (qa ∷ rest) r (o, w, os) = ground (
  arith,
  r.same qa,
  r.not_waiting qa,
  resolve-Resting f id rest,
  resolve-Orderly f id (b || not (is_terminal qa.status)) rest r os,
  Orderly-mono (b || not (is_terminal qa.status)) (b || not (is_terminal (f qa).status)) rest,
)

retry-Orderly :
    (now : ℕ) (id : String) (q : Queue) → Orderly false q → Orderly false (retry now id q).0
unfolding retry
retry-Orderly now id q o =
    resolve-Orderly _ id false q (record { same = λ qa. refl; not_waiting = λ qa. refl }) o

skip_retry-Orderly : (id : String) (q : Queue) → Orderly false q → Orderly false (skip_retry id q).0
unfolding skip_retry
skip_retry-Orderly id q o =
    resolve-Orderly _ id false q (record { same = λ qa. refl; not_waiting = λ qa. refl }) o

cancel_all-Resting : (q : Queue) → Resting (cancel_all q)
unfolding cancel_all
cancel_all-Resting [] = tt
cancel_all-Resting (qa ∷ rest) = ground (arith, cancel_all-Resting rest)

-- The calls that change the queue.
pub data Call : Type 0 where
  enqueues : List Action → Call
  advances : (ℕ → Moment) → Call
  retries : ℕ → String → Call
  skips : String → Call
  cancels : Call

unfoldable pub step : Queue → Call → Queue
step q (enqueues actions) = enqueue q actions
step q (advances at) = advance at q
step q (retries now id) = (retry now id q).0
step q (skips id) = (skip_retry id q).0
step q cancels = cancel_all q

unfoldable pub run : Queue → List Call → Queue
run q [] = q
run q (c ∷ cs) = run (step q c) cs

step-Orderly : (q : Queue) (c : Call) → Orderly false q → Orderly false (step q c)
unfolding step
step-Orderly q (enqueues actions) o = enqueue-Orderly false q actions o
step-Orderly q (advances at) o = advance-Orderly at q o
step-Orderly q (retries now id) o = retry-Orderly now id q o
step-Orderly q (skips id) o = skip_retry-Orderly id q o
step-Orderly q cancels o = Resting-Orderly false _ (cancel_all-Resting q)

pub run-Orderly : (q : Queue) (cs : List Call) → Orderly false q → Orderly false (run q cs)
unfolding run
run-Orderly q [] o = o
run-Orderly q (c ∷ cs) o = run-Orderly (step q c) cs (step-Orderly q c o)

Orderly-alone :
    (b : Bool) (xs : Queue) (qa : QueuedAction) (ys : Queue)
    → Orderly b (xs ++ (qa ∷ ys))
    → is_active qa.status ≡ true
    → is_exclusive qa.action.blocking_type ≡ true
    → (b ≡ false) × All (λ x. is_terminal x.status ≡ true) xs × Resting ys
Orderly-alone b [] qa ys (o, w, os) a e = ((o a e).0, tt, (o a e).1)
Orderly-alone b (x ∷ xs) qa ys (o, w, os) a e =
    let (clear, ended, rests) = Orderly-alone (b || not (is_terminal x.status)) xs qa ys os a e in
    (ground arith, (ground arith, ended), rests)

-- Whatever calls the engine gets, starting from the empty queue: while a SINGLE or HARD action is
-- active, the actions in front of it are finished or failed, and no action behind it is active.
pub run_exclusive :
    (cs : List Call) (xs : Queue) (qa : QueuedAction) (ys : Queue)
    → run [] cs ≡ xs ++ (qa ∷ ys)
    → is_active qa.status ≡ true
    → is_exclusive qa.action.blocking_type ≡ true
    → All (λ x. is_terminal x.status ≡ true) xs × Resting ys
run_exclusive cs xs qa ys e a x =
    let (_, ended, rests) = Orderly-alone false xs qa ys (rw e at (run-Orderly [] cs tt)) a x in
    (ended, rests)
