-- ===== src/Display/MediaCache/Scheduling.antt =====
-- The downloads in parallel: never more than three, and none waits while one of the three is free.
use kiosk_screen.Prelude.{
  ℕ, ◌+◌, ◌≤◌, ◌<◌, ◌≡◌, refl, ◌⊎◌, inl, inr, Bool, List, [], ◌∷◌, ◌++◌, arith, ltb, ◌==◌,
  if◌then◌else◌, ltb→lt, if_both, if_each, length, filter, All, All-append,
}
use kiosk_screen.Display.MediaCache.{
  MediaCache, PreparationRequest, is_pending, activate, drain, max_concurrent_downloads,
}

-- The runs that are of this generation.
abbrev pub is_of : ℕ → PreparationRequest → Bool
is_of generation r = r.generation == generation

abbrev pub current_runs : ℕ → List PreparationRequest → ℕ
current_runs generation rs = length (filter (is_of generation) rs)

-- `activeDownloads` counts the runs of the current generation.
pub record Slots (generation : ℕ) (runs : List PreparationRequest) (active : ℕ) : Type 0 where
  pub counted : active ≡ current_runs generation runs
  pub bounded : active ≤ max_concurrent_downloads
  pub past : All (λ (r : PreparationRequest). r.generation ≤ generation) runs

abbrev pub IsQueued : ℕ → List PreparationRequest → Type 0
IsQueued generation = All (λ (r : PreparationRequest). r.generation ≡ generation)

pub record Scheduled (generation : ℕ) (queue runs : List PreparationRequest) (active : ℕ)
    : Type 0 where
  pub slots : Slots generation runs active
  pub queued : IsQueued generation queue
  pub busy : (queue ≡ []) ⊎ (active ≡ max_concurrent_downloads)

abbrev pub IsScheduled : MediaCache → Type 0
IsScheduled c = Scheduled c.lifecycle_generation c.preparation_queue c.in_flight c.active_downloads

current_runs-append :
    (generation : ℕ) (rs : List PreparationRequest) (r : PreparationRequest)
    → r.generation ≡ generation
    → current_runs generation (rs ++ r ∷ []) ≡ current_runs generation rs + 1
current_runs-append generation [] r e = ground arith
current_runs-append generation (q ∷ rs) r e = ground (arith, current_runs-append generation rs r e)

activate-Slots :
    (generation active : ℕ) (runs : List PreparationRequest) (r : PreparationRequest)
    → Slots generation runs active
    → active < max_concurrent_downloads
    → r.generation ≡ generation
    → Slots generation (runs ++ r ∷ []) (active + 1)
activate-Slots generation active runs r h free e = record {
  counted = omega (arith, h.counted, current_runs-append generation runs r e);
  bounded = omega arith;
  past =
      All-append (λ (q : PreparationRequest). q.generation ≤ generation) runs (r ∷ []) h.past
        (omega arith, tt);
}

-- What the loop on the queue needs, and keeps.
abbrev pub HasSlots : MediaCache → Type 0
HasSlots c = Slots c.lifecycle_generation c.in_flight c.active_downloads

started-HasSlots :
    (r : PreparationRequest) (c : MediaCache)
    → HasSlots c
    → c.active_downloads < max_concurrent_downloads
    → r.generation ≡ c.lifecycle_generation
    → HasSlots (if is_pending r c then activate r c else c)
started-HasSlots r c h free e =
    if_both HasSlots (is_pending r c)
      (activate-Slots c.lifecycle_generation c.active_downloads c.in_flight r h free e) h

started-generation :
    (r : PreparationRequest) (c : MediaCache)
    → (if is_pending r c then activate r c else c).lifecycle_generation ≡ c.lifecycle_generation
started-generation r c =
    if_both (λ (d : MediaCache). d.lifecycle_generation ≡ c.lifecycle_generation) (is_pending r c)
      refl refl

pub drain-IsScheduled :
    (rs : List PreparationRequest) (c : MediaCache)
    → HasSlots c
    → IsQueued c.lifecycle_generation rs
    → IsScheduled (drain rs c)
unfolding drain
drain-IsScheduled [] c h q = record { slots = h; queued = tt; busy = inl refl }
drain-IsScheduled (r ∷ rs) c h q =
    if_each IsScheduled (ltb c.active_downloads max_concurrent_downloads)
      (λ free.
        let next = if is_pending r c then activate r c else c in
        drain-IsScheduled rs next (started-HasSlots r c h (ltb→lt c.active_downloads 3 free) q.0)
          (rw (started-generation r c) q.1))
      (λ full. record { slots = h; queued = q; busy = inr (ground (arith, h.bounded, full)) })
