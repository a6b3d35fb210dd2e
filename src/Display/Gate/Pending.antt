-- ===== src/Display/Gate/Pending.antt =====
-- What waits at the gate: only the latest content, never without a timer.
use kiosk_screen.Prelude.{
  ℕ, zero, suc, ◌+◌, ◌<◌, ◌≡◌, refl, ◌⊎◌, inl, inr, Bool, true, Option, none, some, List, [], ◌∷◌,
  arith, ◌==◌, Option-cases, get_elem?, All, All-append, All-mono,
}
use kiosk_screen.Display.Payloads.{ShowContentPayload}
use kiosk_screen.Display.Gate.{
  Gate, Waiter, commit_payload, handle_failure, commit_or_wait, await_media, commit_when_ready,
  with_pending, enqueue_show_content, apply_snapshot_content, clear_pending, retry_pending_commit,
  remove_at, settle, fire_gate_timer,
}

-- A run that waits is of this generation, for what is pending now, or of an earlier one.
abbrev pub IsLatest : ℕ → Option ShowContentPayload → Waiter → Type 0
IsLatest generation pending w =
    (w.generation < generation)
    ⊎ ((w.generation ≡ generation) × ((pending ≡ none) ⊎ (pending ≡ some w.payload)))

-- The timer is set exactly while something is pending, and for that.
abbrev pub IsTimerOf : ℕ → Option ShowContentPayload → Option Waiter → Type 0
IsTimerOf generation none timer = timer ≡ none
IsTimerOf generation (some p) timer = timer ≡ some (record { generation = generation; payload = p })

pub record IsGated (g : Gate) : Type 0 where
  pub timer : IsTimerOf g.commit_generation g.pending_payload g.gate_timer
  pub latest : All (IsLatest g.commit_generation g.pending_payload) g.waiters

forget_pending :
    (generation : ℕ) (pending : Option ShowContentPayload) (ws : List Waiter)
    → All (IsLatest generation pending) ws
    → All (IsLatest generation none) ws
forget_pending generation pending ws =
    All-mono (IsLatest generation pending) (IsLatest generation none) ws (λ w h. ground arith)

next_generation :
    (generation : ℕ) (pending later : Option ShowContentPayload) (ws : List Waiter)
    → All (IsLatest generation pending) ws
    → All (IsLatest (generation + 1) later) ws
next_generation generation pending later ws =
    All-mono (IsLatest generation pending) (IsLatest (generation + 1) later) ws
      (λ w h. ground arith)

All-remove_at : (P : Waiter → Type 0) (i : ℕ) (ws : List Waiter) → All P ws → All P (remove_at i ws)
All-remove_at P i [] h = tt
All-remove_at P zero (w ∷ ws) h = h.1
All-remove_at P (suc i) (w ∷ ws) h = (h.0, All-remove_at P i ws h.1)

commit_payload-IsGated :
    (p : ShowContentPayload) (g : Gate) → IsGated g → IsGated (commit_payload p g)
unfolding commit_payload
commit_payload-IsGated p g h = record {
  timer = refl;
  latest = forget_pending g.commit_generation g.pending_payload g.waiters h.latest;
}

handle_failure-IsGated :
    (p : ShowContentPayload) (g : Gate) → IsGated g → IsGated (handle_failure p g)
unfolding handle_failure
handle_failure-IsGated p g h = record {
  timer = refl;
  latest = forget_pending g.commit_generation g.pending_payload g.waiters h.latest;
}

await_media-IsGated :
    (p : ShowContentPayload) (g : Gate)
    → g.pending_payload ≡ some p
    → IsGated g
    → IsGated (await_media g.commit_generation p g)
await_media-IsGated p g e h = record {
  timer = h.timer;
  latest =
      All-append (IsLatest g.commit_generation g.pending_payload) g.waiters _ h.latest
        (inr (refl, inr e), tt);
}

-- A commit that is due for what is pending.
commit_or_wait-IsGated :
    (p : ShowContentPayload) (g : Gate)
    → g.pending_payload ≡ some p
    → IsGated g
    → IsGated (commit_or_wait g.commit_generation p g)
commit_or_wait-IsGated p g e h =
    ground (arith, await_media-IsGated p g e h, commit_payload-IsGated p g h)

commit_when_ready_now : (g : Gate) → IsGated g → IsGated (commit_when_ready g.commit_generation g)
unfolding commit_when_ready
commit_when_ready_now g h = elim (Option-cases g.pending_payload) [
  | inl e ↦ rw (e, commit_when_ready) h
  | inr (p, e) ↦
      let same : (g.commit_generation == g.commit_generation) ≡ true = ground arith in
      rw (e, commit_when_ready, same) (commit_or_wait-IsGated p g e h)
]

with_pending-IsGated : (p : ShowContentPayload) (g : Gate) → IsGated g → IsGated (with_pending p g)
with_pending-IsGated p g h = record {
  timer = refl;
  latest = next_generation g.commit_generation g.pending_payload (some p) g.waiters h.latest;
}

pub enqueue_show_content-IsGated :
    (p : ShowContentPayload) (g : Gate) → IsGated g → IsGated (enqueue_show_content p g)
unfolding enqueue_show_content
enqueue_show_content-IsGated p g h = ground (
  arith,
  commit_payload-IsGated p g h,
  commit_when_ready_now (with_pending p g) (with_pending-IsGated p g h),
)

pub clear_pending-IsGated : (g : Gate) → IsGated g → IsGated (clear_pending g)
unfolding clear_pending
clear_pending-IsGated g h = record {
  timer = refl;
  latest = forget_pending g.commit_generation g.pending_payload g.waiters h.latest;
}

pub apply_snapshot_content-IsGated :
    (p : ShowContentPayload) (g : Gate) → IsGated g → IsGated (apply_snapshot_content p g)
unfolding apply_snapshot_content clear_pending
apply_snapshot_content-IsGated p g h =
    commit_payload-IsGated p (clear_pending g) (clear_pending-IsGated g h)

pub retry_pending_commit-IsGated : (g : Gate) → IsGated g → IsGated (retry_pending_commit g)
unfolding retry_pending_commit
retry_pending_commit-IsGated g h = ground (arith, commit_when_ready_now g h)

timer_of_some :
    (generation : ℕ) (pending : Option ShowContentPayload) (timer : Option Waiter)
    (p : ShowContentPayload)
    → IsTimerOf generation pending timer
    → pending ≡ some p
    → timer ≡ some (record { generation = generation; payload = p })
timer_of_some generation none timer p h e = ground arith
timer_of_some generation (some q) timer p h e = rw h (ground arith)

timer_of_none :
    (generation : ℕ) (pending : Option ShowContentPayload) (timer : Option Waiter)
    → IsTimerOf generation pending timer
    → pending ≡ none
    → timer ≡ none
timer_of_none generation none timer h e = h
timer_of_none generation (some q) timer h e = ground arith

-- Where the invariant of the gate holds, when the timer fires while content waits, that content's
-- failure is reported and nothing is left to wait.
pub fire_gate_timer_pending :
    (p : ShowContentPayload) (g : Gate)
    → IsGated g
    → g.pending_payload ≡ some p
    → fire_gate_timer g ≡ handle_failure p g
unfolding fire_gate_timer handle_failure
fire_gate_timer_pending p g h e =
    let armed = timer_of_some g.commit_generation g.pending_payload g.gate_timer p h.timer e in
    let same : (g.commit_generation == g.commit_generation) ≡ true = ground arith in
    rw (armed, fire_gate_timer) (rw same refl)

pub fire_gate_timer-IsGated : (g : Gate) → IsGated g → IsGated (fire_gate_timer g)
unfolding fire_gate_timer
fire_gate_timer-IsGated g h = elim (Option-cases g.pending_payload) [
  | inl e ↦
      rw
        (
          timer_of_none g.commit_generation g.pending_payload g.gate_timer h.timer e,
          fire_gate_timer,
        )
        h
  | inr (p, e) ↦ rw (fire_gate_timer_pending p g h e) (handle_failure-IsGated p g h)
]

without-IsGated :
    (i : ℕ) (g : Gate) → IsGated g → IsGated (record g { waiters = remove_at i g.waiters })
without-IsGated i g h = record {
  timer = h.timer;
  latest = All-remove_at (IsLatest g.commit_generation g.pending_payload) i g.waiters h.latest;
}

pub settle-IsGated : (i : ℕ) (ready : Bool) (g : Gate) → IsGated g → IsGated (settle i ready g)
unfolding settle
settle-IsGated i ready g h = elim (Option-cases (get_elem? g.waiters i)) [
  | inl e ↦ rw (e, settle) h
  | inr (w, e) ↦
      let rest = record g { waiters = remove_at i g.waiters } in
      let kept = without-IsGated i g h in
      rw (e, settle)
        (ground (
          arith,
          kept,
          commit_payload-IsGated w.payload rest kept,
          handle_failure-IsGated w.payload rest kept,
        ))
]
