-- ===== src/Display/Gate/Runs.antt =====
-- Runs of the gate: every order of contents, answers, retries and timers.
use kiosk_screen.Prelude.{
  ℕ, ◌≡◌, refl, ◌⊎◌, inl, inr, Bool, true, Option, none, some, List, [], ◌∷◌, arith, if◌then◌else◌,
  Bool-cases, is_some, get_elem?, All-get_elem?,
}
use kiosk_screen.Display.Payloads.{ShowContentPayload}
use kiosk_screen.Display.Viewer.{Viewer}
use kiosk_screen.Display.Gate.{
  Gate, Waiter, commit_payload, handle_failure, enqueue_show_content, apply_snapshot_content,
  clear_pending, retry_pending_commit, remove_at, is_awaited, settle, fire_gate_timer,
}
use kiosk_screen.Display.Gate.Pending.{
  IsLatest, IsGated, enqueue_show_content-IsGated, clear_pending-IsGated,
  apply_snapshot_content-IsGated, retry_pending_commit-IsGated, fire_gate_timer-IsGated,
  settle-IsGated,
}

pub data GateEvent : Type 0 where
  enqueued snapshot_applied : ShowContentPayload → GateEvent
  cleared retried timer_fired : GateEvent
  settled : ℕ → Bool → GateEvent
  viewer_changed : (Viewer → Viewer) → GateEvent

unfoldable pub gate_step : Gate → GateEvent → Gate
gate_step g (enqueued p) = enqueue_show_content p g
gate_step g (snapshot_applied p) = apply_snapshot_content p g
gate_step g cleared = clear_pending g
gate_step g retried = retry_pending_commit g
gate_step g timer_fired = fire_gate_timer g
gate_step g (settled i ready) = settle i ready g
gate_step g (viewer_changed f) = record g { viewer = f g.viewer }

abbrev pub gate_run : Gate → List GateEvent → Gate
gate_run g [] = g
gate_run g (e ∷ es) = gate_run (gate_step g e) es

pub viewer_changed-IsGated :
    (f : Viewer → Viewer) (g : Gate) → IsGated g → IsGated (record g { viewer = f g.viewer })
viewer_changed-IsGated f g h = record { timer = h.timer; latest = h.latest }

pub gate_step-IsGated : (g : Gate) (e : GateEvent) → IsGated g → IsGated (gate_step g e)
unfolding gate_step
gate_step-IsGated g (enqueued p) h = enqueue_show_content-IsGated p g h
gate_step-IsGated g (snapshot_applied p) h = apply_snapshot_content-IsGated p g h
gate_step-IsGated g cleared h = clear_pending-IsGated g h
gate_step-IsGated g retried h = retry_pending_commit-IsGated g h
gate_step-IsGated g timer_fired h = fire_gate_timer-IsGated g h
gate_step-IsGated g (settled i ready) h = settle-IsGated i ready g h
gate_step-IsGated g (viewer_changed f) h = viewer_changed-IsGated f g h

abbrev pub idle_gate : Viewer → Gate
idle_gate v = record {
  viewer = v;
  pending_payload = none;
  committed_payload = none;
  gate_timer = none;
  commit_generation = 0;
  waiters = [];
  committed = [];
}

gate_run_from : (es : List GateEvent) (g : Gate) → IsGated g → IsGated (gate_run g es)
gate_run_from [] g h = h
gate_run_from (e ∷ es) g h = gate_run_from es (gate_step g e) (gate_step-IsGated g e h)

-- After any events at an idle gate, a timer is set exactly while some content waits, for that
-- content and the current generation; and a run that awaits a medium is of an earlier generation,
-- or is of the current one and for the content that waits, if any does.
pub gate_run-IsGated : (v : Viewer) (es : List GateEvent) → IsGated (gate_run (idle_gate v) es)
gate_run-IsGated v es = gate_run_from es (idle_gate v) (record { timer = refl; latest = tt })

-- What the answer for a waiting run comes to.
abbrev pub settled_as : Bool → ShowContentPayload → Gate → Gate
settled_as ready p g = if ready then commit_payload p g else handle_failure p g

awaited_is_pending :
    (generation : ℕ) (pending : Option ShowContentPayload) (w : Waiter)
    → IsLatest generation pending w
    → w.generation ≡ generation
    → is_some pending ≡ true
    → pending ≡ some w.payload
awaited_is_pending generation pending w h e p = ground arith

awaited_lem :
    (w : Waiter) (g : Gate)
    → is_awaited w g ≡ true
    → (w.generation ≡ g.commit_generation) × (is_some g.pending_payload ≡ true)
awaited_lem w g h = ground arith

-- Where the invariant of the gate holds, the answer of the cache for a run that awaits it only
-- removes that run, or it also settles the content that waits, which is that of the run: it is
-- committed if its medium is ready, and its failure is reported if not.
pub settle_lem :
    (i : ℕ) (ready : Bool) (w : Waiter) (g : Gate)
    → IsGated g
    → get_elem? g.waiters i ≡ some w
    → let rest = record g { waiters = remove_at i g.waiters } in
      (settle i ready g ≡ rest)
      ⊎ ((g.pending_payload ≡ some w.payload)
          × (settle i ready g ≡ settled_as ready w.payload rest))
unfolding settle
settle_lem i ready w g h e = elim (Bool-cases (is_awaited w g)) [
  | inl hit ↦
      let current = awaited_lem w g hit in
      inr (
        awaited_is_pending g.commit_generation g.pending_payload w
            (All-get_elem? (IsLatest g.commit_generation g.pending_payload) g.waiters i w h.latest
              e)
            current.0 current.1,
        ground (arith, e, hit),
      )
  | inr miss ↦ inl (ground (arith, e, miss))
]
