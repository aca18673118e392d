-- ===== src/Fleet/Watcher/Pending.antt =====
-- What the watcher remembers of one robot.
use vda.Prelude.{◌≡◌, ◌≢◌, refl, true, false, arith}
use vda.Prelude.Text.{String, eq_iff}
use vda.Models.State.{State}
use vda.Fleet.Watcher.{BaseRequestWatcher, robot_id, on_state}

module _ {F : Type 0} where
  pub pending_own :
      (w : BaseRequestWatcher) (s : State F) (me : String)
      → robot_id s ≡ me
      → (on_state w s).0.pending me ≡ s.new_base_request
  unfolding on_state
  pending_own w s me e = ground (arith, eq_iff me (robot_id s))

  pub pending_other :
      (w : BaseRequestWatcher) (s : State F) (me : String)
      → robot_id s ≢ me
      → (on_state w s).0.pending me ≡ w.pending me
  unfolding on_state
  pending_other w s me e = ground (arith, eq_iff me (robot_id s))

  pub called_asks :
      (w : BaseRequestWatcher) (s : State F) → (on_state w s).1 ≡ true → s.new_base_request ≡ true
  unfolding on_state
  called_asks w s e = ground arith

  pub called_own :
      (w : BaseRequestWatcher) (s : State F) (me : String)
      → robot_id s ≡ me
      → w.pending me ≡ true
      → (on_state w s).1 ≡ false
  unfolding on_state
  called_own w s me e p = rw (e, p) (ground arith)

  pub not_called :
      (w : BaseRequestWatcher) (s : State F) → s.new_base_request ≡ false → (on_state w s).1 ≡ false
  unfolding on_state
  not_called w s e = rw e refl

  pub called_new :
      (w : BaseRequestWatcher) (s : State F) (me : String)
      → robot_id s ≡ me
      → w.pending me ≡ false
      → (on_state w s).1 ≡ s.new_base_request
  unfolding on_state
  called_new w s me e fresh = rw (e, fresh) (ground arith)
