-- ===== src/Admin/ContentStream/Dragging.antt =====
-- What `setDragDeferred` and `handleInventorySignal` make of changes that come during a drag.
use kiosk_screen.Prelude.{ℕ, zero, suc, ◌+◌, ◌≡◌, refl, true, false, ◌==◌, if◌then◌else◌, arith}
use kiosk_screen.Admin.ContentStream.{ContentStream, set_drag_deferred, handle_inventory_signal}
use kiosk_screen.Admin.ContentStream.Runs.{if_source_open}

-- n signals of the server, one after the other.
abbrev pub signals : ℕ → ContentStream → ContentStream
signals zero s = s
signals (suc n) s = signals n (if_source_open handle_inventory_signal s)

signal_held :
    (s : ContentStream)
    → s.event_source ≡ true
    → s.drag_deferred ≡ true
    → if_source_open handle_inventory_signal s ≡ record s { pending_while_drag = true }
unfolding handle_inventory_signal
signal_held s is_open drags = rw (is_open, drags) refl

signals_held :
    (n : ℕ) (s : ContentStream)
    → s.event_source ≡ true
    → s.drag_deferred ≡ true
    → signals (suc n) s ≡ record s { pending_while_drag = true }
signals_held zero s is_open drags = signal_held s is_open drags
signals_held (suc n) s is_open drags =
    rw (signal_held s is_open drags)
      (signals_held n (record s { pending_while_drag = true }) is_open drags)

-- While the source of the stream is open and nothing is held back, a drag during which the server
-- signals any number of changes ends with one notice of them all, or with none if there were none,
-- and holds nothing back.
pub drag_coalesces :
    (n : ℕ) (s : ContentStream)
    → s.event_source ≡ true
    → s.pending_while_drag ≡ false
    → let t = set_drag_deferred false (signals n (set_drag_deferred true s)) in
      (t.raised ≡ s.raised + (if n == 0 then 0 else 1)) × (t.pending_while_drag ≡ false)
unfolding set_drag_deferred
drag_coalesces zero s is_open h = rw (set_drag_deferred, h) (omega arith, refl)
drag_coalesces (suc n) s is_open h =
    rw (signals_held n (record s { drag_deferred = true }) is_open refl) (ground arith, refl)
