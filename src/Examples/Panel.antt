-- ===== src/Examples/Panel.antt =====
-- The viewer's hub and its drop gate.
use vda.Viewer.Tabs.{no_tabs, open_tab, read_tab, on_message, opens, reads, hears, start, later}
use vda.Viewer.Tabs.Tidy.{IsTidy, tabs-IsTidy}
use vda.Prelude.{true, false, Option, none, some, List, [], ◌∷◌, ◌==◌, ◌≡◌, refl, ◌↔◌, inr, arith}
use vda.Prelude.Text.{String, codes}
use vda.Topics.{
  topic_for, qos, validate_segment, validate_serial, first_invalid, contains, validate_topic_name,
}
use vda.Mqtt.{publish}
use vda.Hub.{register, broadcast, put, dead_of, remove_all, remove}
use vda.Hub.Rounds.{alive_of}
use vda.Hub.History.{
  Call, registers, broadcasts, after, last_message, AllFresh, Writes, register-Writes,
  broadcast_lem,
}
use vda.Viewer.{HttpRequest, order_handler, consume}
use vda.Viewer.Drops.{published, all_forwarded, without_first, published_lem}

-- Two tabs, of which the first one is gone by the second message.
abbrev calls : List (Call String)
calls =
    broadcasts (λ i c. c == 7) "b" "two"
    ∷ registers (λ l. l) 8
    ∷ broadcasts (λ i c. false) "a" "one"
    ∷ registers (λ l. l) 7
    ∷ []

still_there : (after calls).conns ≡ 8 ∷ []
unfolding after register broadcast put dead_of remove_all remove
still_there = refl

calls-AllFresh : AllFresh calls
unfolding AllFresh after register broadcast put dead_of remove_all remove
calls-AllFresh = (tt, ((omega arith, tt), (tt, (tt, tt))))

register-Writes_example :
    Writes 9 "one" (register (λ l. l) (after calls) 9).1
    ↔ ((t : String) × (last_message t calls ≡ some "one"))
register-Writes_example = register-Writes calls (λ l. l) 9 "one" (λ l t m. (λ h. h, λ h. h))

broadcast_lem_example :
    (broadcast (λ i c. i == 0) (after calls) "a" "three").0.conns
    ≡ alive_of (λ i c. i == 0) 0 (after calls).conns
broadcast_lem_example = broadcast_lem calls (λ i c. i == 0) "a" "three" calls-AllFresh

abbrev order_for : String → String → Option String × HttpRequest String
order_for serial body = (
  none,
  record { method = "POST"; manufacturer = "KIT"; serial_number = serial; body = inr body },
)

abbrev requests : List (Option String × HttpRequest String)
requests = order_for "0 1" "x" ∷ order_for "0001" "y" ∷ order_for "0001" "z" ∷ []

-- The first request names no robot, so the drop waits for the second.
swallowed :
    published (record { armed = true }) requests
    ≡ none ∷ none ∷ some (publish "vda5050/v3/KIT/0001/order" 0 false "z") ∷ []
unfolding published order_handler consume topic_for validate_segment validate_serial first_invalid
    contains validate_topic_name codes qos
swallowed = refl

published_lem_example :
    published (record { armed = true }) requests ≡ without_first (all_forwarded requests)
published_lem_example = published_lem true requests

-- A tab is opened, a message comes, a second tab is opened, and the first one goes.
tabs-IsTidy_example : IsTidy (
    read_tab true
      (open_tab true
        (λ l. l)
        (on_message (λ i c. false) (open_tab {M = String} true (λ l. l) no_tabs 7).0 "a" "one").0
        8).0
      7)
unfolding open_tab on_message
tabs-IsTidy_example = tabs-IsTidy _ (
    later
      (later (later (later start (opens true (λ l. l) 7 tt)) (hears (λ i c. false) "a" "one"))
        (opens true (λ l. l) 8 (omega arith, tt)))
      (reads true 7))
