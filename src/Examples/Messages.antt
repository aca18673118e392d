-- ===== src/Examples/Messages.antt =====
-- Headers and state messages in a row.
use vda.Prelude.{ℕ, suc, ◌≡◌, ◌↔◌, true, false, [], ◌∷◌, ◌%◌, ◌^◌}
use vda.Models.State.{State}
use vda.Fleet.Experiments.{no_header}
use vda.Fleet.Watcher.{on_state, watched, asked, robot_id, on_state_iff}
use vda.Headers.{after_topics, generate, count, generate-count}
use vda.Robot.State.{build_state}
use vda.Examples.Coarse.{coarse}
use vda.Examples.Handler.{waiting_robot}

generate-count_example :
    (generate (after_topics ("state" ∷ "order" ∷ "state" ∷ [])) "" "state" "KIT" "0001").1.header_id
    ≡ suc (count "state" ("state" ∷ "order" ∷ "state" ∷ [])) % 2 ^ 32
generate-count_example = generate-count ("state" ∷ "order" ∷ "state" ∷ []) "" "state" "KIT" "0001"

abbrev report : State ℕ
report = build_state no_header waiting_robot

on_state_iff_example :
    ((on_state (watched (report ∷ [])) report).1 ≡ true)
    ↔ ((report.new_base_request ≡ true) × (asked (robot_id report) (report ∷ []) ≡ false))
on_state_iff_example = on_state_iff (report ∷ []) report
