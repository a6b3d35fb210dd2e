-- ===== src/Display/Gate/Tests.antt =====
-- Runs of the gate with one content waiting.
use kiosk_screen.Prelude.{◌≡◌, refl, ◌⊎◌, inr, true, some, List, [], ◌∷◌}
use kiosk_screen.Display.Samples.{first_item, second_item, sample_content, sample_viewer}
use kiosk_screen.Display.Gate.{Gate, Waiter, settle, remove_at}
use kiosk_screen.Display.Gate.Pending.{IsGated}
use kiosk_screen.Display.Gate.Runs.{
  GateEvent, enqueued, settled, timer_fired, gate_run, idle_gate, gate_run-IsGated, settle_lem,
  settled_as,
}

abbrev sample_events : List GateEvent
sample_events =
    enqueued (sample_content first_item)
    ∷ enqueued (sample_content second_item)
    ∷ settled 0 true
    ∷ timer_fired
    ∷ []

gate_run-IsGated_example : IsGated (gate_run (idle_gate sample_viewer) sample_events)
gate_run-IsGated_example = gate_run-IsGated sample_viewer sample_events

abbrev waiter : Waiter
waiter = record { generation = 1; payload = sample_content second_item }

abbrev waiting : Gate
waiting = record (idle_gate sample_viewer) {
  pending_payload = some (sample_content second_item);
  gate_timer = some waiter;
  commit_generation = 1;
  waiters = waiter ∷ [];
}

waiting-IsGated : IsGated waiting
waiting-IsGated = record { timer = refl; latest = (inr (refl, inr refl), tt) }

settle_lem_example :
    let rest = record waiting { waiters = remove_at 0 waiting.waiters } in
    (settle 0 true waiting ≡ rest)
    ⊎ ((waiting.pending_payload ≡ some (sample_content second_item))
        × (settle 0 true waiting ≡ settled_as true (sample_content second_item) rest))
settle_lem_example = settle_lem 0 true waiter waiting waiting-IsGated refl
