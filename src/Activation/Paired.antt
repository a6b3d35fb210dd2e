-- ===== src/Activation/Paired.antt =====
-- What a login page keeps between the setup of an activation, its polling and what it shows.
use kiosk_screen.Prelude.{
  ℕ, String, ◌≡◌, refl, sym, Bool, true, false, not, ◌&&◌, ◌||◌, Option, none, some, ◌==◌, arith,
  if_both, if_each, is_some, Option-cases, inl, inr,
}
use kiosk_screen.Activation.{
  ActivationPhase, idle_phase, loading_phase, ready_phase, error_phase, DeviceActivationStart,
  ActivationSetup, starting, drawing_qr, ActivationPolling, LoginPage, stop_activation,
  begin_activation, start_device_polling, started_setup, finished_setup, is_request_aborted,
  attempt_of, failed_setup, setup_started, qr_drawn, setup_failed,
}

abbrev pub is_loading_phase : ActivationPhase → Bool
is_loading_phase loading_phase = true
is_loading_phase _ = false

abbrev pub is_ready_phase : ActivationPhase → Bool
is_ready_phase ready_phase = true
is_ready_phase _ = false

abbrev pub is_outdated : Option ActivationSetup → ℕ → Bool
is_outdated none n = false
is_outdated (some setup) n = not (attempt_of setup == n)

-- The setup and the polling, the attempt and the phase of one page.
pub record Paired (setup : Option ActivationSetup) (polling : Option ActivationPolling)
    (attempt : ℕ) (phase : ActivationPhase) : Type 0 where
  pub current : is_outdated setup attempt ≡ false
  pub loads : (is_some setup && not (is_loading_phase phase)) ≡ false
  pub apart : (is_some setup && is_some polling) ≡ false
  pub polls : (is_some polling && not (is_ready_phase phase)) ≡ false

-- A setup under way is that of the latest attempt, while the page says that it loads and nothing is
-- polled; what is polled is polled while the page shows the code.
abbrev pub IsPaired : LoginPage → Type 0
IsPaired a = Paired a.setup a.polling a.attempt a.phase

ready_of : (phase : ActivationPhase) → not (is_ready_phase phase) ≡ false → phase ≡ ready_phase
ready_of ready_phase h = refl
ready_of idle_phase h = absurd (ground (arith, h))
ready_of loading_phase h = absurd (ground (arith, h))
ready_of error_phase h = absurd (ground (arith, h))

pub nothing_runs : (n : ℕ) (phase : ActivationPhase) → Paired none none n phase
nothing_runs n phase = record { current = refl; loads = refl; apart = refl; polls = refl }

pub begin_activation-IsPaired : (a : LoginPage) → IsPaired (begin_activation a)
unfolding begin_activation stop_activation
begin_activation-IsPaired a = record {
  current = ground arith;
  loads = refl;
  apart = refl;
  polls = refl;
}

pub start_device_polling-IsPaired :
    (device_code : String) (seconds : ℕ) (a : LoginPage)
    → a.setup ≡ none
    → a.phase ≡ ready_phase
    → IsPaired (start_device_polling device_code seconds a)
unfolding start_device_polling
start_device_polling-IsPaired device_code seconds a e ready =
    rw (e, ready) (record { current = refl; loads = refl; apart = refl; polls = refl })

-- The setup of a page is taken away.
dropped-IsPaired : (a : LoginPage) → IsPaired a → IsPaired (record a { setup = none })
dropped-IsPaired a h = record { current = refl; loads = refl; apart = refl; polls = h.polls }

started_setup-IsPaired :
    (n : ℕ) (started : DeviceActivationStart) (a : LoginPage)
    → a.setup ≡ some (starting n)
    → IsPaired a
    → IsPaired (started_setup n started a)
unfolding started_setup
started_setup-IsPaired n started a e h =
    let facts : Paired (some (starting n)) a.polling a.attempt a.phase = rw (sym e) h in
    if_each IsPaired (n == a.attempt)
      (λ hit. record {
        current = facts.current;
        loads = facts.loads;
        apart = facts.apart;
        polls = h.polls;
      })
      λ late. dropped-IsPaired a h

finished_setup-IsPaired :
    (n : ℕ) (started : DeviceActivationStart) (qr : String) (a : LoginPage)
    → IsPaired a
    → IsPaired (finished_setup n started qr a)
unfolding finished_setup
finished_setup-IsPaired n started qr a h =
    if_both IsPaired (n == a.attempt)
      (start_device_polling-IsPaired started.device_code started.poll_interval_seconds
        (record a { setup = none; qr_data_url = some qr; phase = ready_phase }) refl refl)
      (dropped-IsPaired a h)

failed_setup-IsPaired :
    (n : ℕ) (status : Option ℕ) (abort : Bool) (a : LoginPage)
    → a.polling ≡ none
    → IsPaired (failed_setup n status abort a)
unfolding failed_setup
failed_setup-IsPaired n status abort a e =
    if_both IsPaired (not (n == a.attempt) || is_request_aborted status abort)
      (rw e (nothing_runs a.attempt a.phase)) (rw e (nothing_runs a.attempt error_phase))

pub setup_started-IsPaired :
    (started : DeviceActivationStart) (a : LoginPage)
    → IsPaired a
    → IsPaired (setup_started started a)
unfolding setup_started
setup_started-IsPaired started a h = elim (Option-cases a.setup) [
  | inl e ↦ rw (setup_started, e) h
  | inr (starting n, e) ↦ rw (setup_started, e) (started_setup-IsPaired n started a e h)
  | inr (drawing_qr n before, e) ↦ rw (setup_started, e) h
]

pub qr_drawn-IsPaired : (qr : String) (a : LoginPage) → IsPaired a → IsPaired (qr_drawn qr a)
unfolding qr_drawn
qr_drawn-IsPaired qr a h = elim (Option-cases a.setup) [
  | inl e ↦ rw (qr_drawn, e) h
  | inr (starting n, e) ↦ rw (qr_drawn, e) h
  | inr (drawing_qr n started, e) ↦ rw (qr_drawn, e) (finished_setup-IsPaired n started qr a h)
]

-- While a setup is under way nothing is polled.
pub unpolled :
    (setup : ActivationSetup) (a : LoginPage) → a.setup ≡ some setup → IsPaired a → a.polling ≡ none
unpolled setup a e h =
    let facts : Paired (some setup) a.polling a.attempt a.phase = rw (sym e) h in
    elim (Option-cases a.polling) [
      | inl none_polled ↦ none_polled
      | inr (p, some_polled) ↦ absurd (ground (arith, facts.apart, some_polled))
    ]

pub setup_failed-IsPaired :
    (status : Option ℕ) (abort : Bool) (a : LoginPage)
    → IsPaired a
    → IsPaired (setup_failed status abort a)
unfolding setup_failed
setup_failed-IsPaired status abort a h = elim (Option-cases a.setup) [
  | inl e ↦ rw (setup_failed, e) h
  | inr (setup, e) ↦
      rw (setup_failed, e)
        (failed_setup-IsPaired (attempt_of setup) status abort a (unpolled setup a e h))
]

-- What holds of a page whose polling is on.
pub polled_facts :
    (p : ActivationPolling) (a : LoginPage)
    → a.polling ≡ some p
    → IsPaired a
    → (a.setup ≡ none) × (a.phase ≡ ready_phase)
polled_facts p a e h =
    let facts : Paired a.setup (some p) a.attempt a.phase = rw (sym e) h in
    (
      elim (Option-cases a.setup) [
        | inl unset ↦ unset
        | inr (setup, set) ↦ absurd (ground (arith, facts.apart, set))
      ],
      ready_of a.phase facts.polls,
    )
