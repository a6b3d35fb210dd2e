-- ===== src/Display/Gate.antt =====
-- frontend/src/app/display/display-content-gate.service.ts, with the viewer that it drives. `ensureReady`
-- of the media cache is asked by `commit_when_ready`, which waits in `waiters` for the answer.
pub mod Pending
pub mod Runs
mod Tests
use kiosk_screen.Prelude.{
  ℕ, zero, suc, ◌+◌, String, Bool, not, ◌&&◌, Option, none, some, List, [], ◌∷◌, ◌++◌, ◌==◌,
  if◌then◌else◌, is_some, non_empty, opt_str_eq, get_elem?,
}
use kiosk_screen.Display.Item.{DisplayContentItem, is_loop}
use kiosk_screen.Display.Payloads.{ShowContentPayload}
use kiosk_screen.Display.Viewer.{Viewer, apply_show_content, report_media_error, iframe_active}

abbrev pub gate_timeout_ms : ℕ
gate_timeout_ms = 30000

-- A run of `commitWhenReady` that awaits its medium.
pub record Waiter : Type 0 where
  pub generation : ℕ
  pub payload : ShowContentPayload

-- The timer's callback holds the generation and the payload that it was set for.
pub record Gate : Type 0 where
  pub viewer : Viewer
  pub pending_payload : Option ShowContentPayload
  pub committed_payload : Option ShowContentPayload
  pub gate_timer : Option Waiter
  pub commit_generation : ℕ
  pub waiters : List Waiter
  pub committed : List String

unfoldable pub is_gate_active : Gate → Bool
is_gate_active g =
    is_loop g.viewer.content_mode && not g.viewer.is_paused && not (iframe_active g.viewer)

unfoldable pub raw_media_url : DisplayContentItem → String
raw_media_url content = elim content.media_file [
  | none ↦ content.source_reference
  | some media ↦ media.media_url
]

unfoldable pub commit_payload : ShowContentPayload → Gate → Gate
commit_payload payload g = record g {
  gate_timer = none;
  pending_payload = none;
  committed_payload = some payload;
  viewer = apply_show_content payload g.viewer;
  committed = g.committed ++ payload.content.id ∷ [];
}

unfoldable pub handle_failure : ShowContentPayload → Gate → Gate
handle_failure payload g = record g {
  gate_timer = none;
  pending_payload = none;
  viewer = report_media_error payload.content.id (some payload.command_id) g.viewer;
}

abbrev pub await_media : ℕ → ShowContentPayload → Gate → Gate
await_media generation payload g = record g {
  waiters = g.waiters ++ record { generation = generation; payload = payload } ∷ [];
}

abbrev pub commit_or_wait : ℕ → ShowContentPayload → Gate → Gate
commit_or_wait generation payload g =
    if non_empty (raw_media_url payload.content)
    then await_media generation payload g
    else commit_payload payload g

unfoldable pub commit_when_ready : ℕ → Gate → Gate
commit_when_ready generation g = elim g.pending_payload [
  | none ↦ g
  | some payload ↦
      if g.commit_generation == generation then commit_or_wait generation payload g else g
]

abbrev pub with_pending : ShowContentPayload → Gate → Gate
with_pending payload g = record g {
  pending_payload = some payload;
  commit_generation = g.commit_generation + 1;
  gate_timer = some (record { generation = g.commit_generation + 1; payload = payload });
}

unfoldable pub enqueue_show_content : ShowContentPayload → Gate → Gate
enqueue_show_content payload g =
    if is_gate_active g
    then commit_when_ready (g.commit_generation + 1) (with_pending payload g)
    else commit_payload payload g

unfoldable pub apply_snapshot_content : ShowContentPayload → Gate → Gate
apply_snapshot_content payload g =
    commit_payload payload (record g { gate_timer = none; pending_payload = none })

unfoldable pub clear_pending : Gate → Gate
clear_pending g = record g { gate_timer = none; pending_payload = none }

unfoldable pub retry_pending_commit : Gate → Gate
retry_pending_commit g =
    if is_some g.pending_payload then commit_when_ready g.commit_generation g else g

-- `this.pendingPayload()?.commandId`
abbrev pub pending_command : Gate → Option String
pending_command g = elim g.pending_payload [ none ↦ none | some payload ↦ some payload.command_id ]

abbrev pub remove_at : ℕ → List Waiter → List Waiter
remove_at i [] = []
remove_at zero (w ∷ ws) = ws
remove_at (suc i) (w ∷ ws) = w ∷ remove_at i ws

abbrev pub is_awaited : Waiter → Gate → Bool
is_awaited w g =
    g.commit_generation == w.generation
    && opt_str_eq (pending_command g) (some w.payload.command_id)

-- The cache answers the i-th waiter: its medium is ready, or it failed.
unfoldable pub settle : ℕ → Bool → Gate → Gate
settle i ready g = elim (get_elem? g.waiters i) [
  | none ↦ g
  | some w ↦
      let rest = record g { waiters = remove_at i g.waiters } in
      if is_awaited w g
      then (if ready then commit_payload w.payload rest else handle_failure w.payload rest)
      else rest
]

unfoldable pub fire_gate_timer : Gate → Gate
fire_gate_timer g = elim g.gate_timer [
  | none ↦ g
  | some t ↦
      if g.commit_generation == t.generation
      then handle_failure t.payload g
      else record g { gate_timer = none }
]
