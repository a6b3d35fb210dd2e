-- ===== src/Activation/Runs.antt =====
-- Runs of the login page: whatever the server, the timer and the user bring, in any order.
use kiosk_screen.Prelude.{
  ℕ, String, ◌≡◌, refl, Bool, true, false, not, ◌||◌, Option, none, some, List, [], ◌∷◌, if_both,
  is_some, Option-cases, or_default, is_blank, inl, inr,
}
use kiosk_screen.Admin.Errors.{ErrorBody}
use kiosk_screen.Session.{AuthenticatedUser, Session, Reply, replied, refused, is_authenticated}
use kiosk_screen.Display.Label.{DisplayLabel}
use kiosk_screen.Activation.{
  idle_phase, ready_phase, DeviceActivationStart, ActivationPolling, LoginPage, initial_login_page,
  stop_activation, begin_activation, open_login_page, setup_started, qr_drawn, setup_failed,
  is_expired_activation_error, polling_failed, thrown, activated, PollReply, still_pending,
  poll_refused, authorized, authorized_as, poll_replied, poll_tick, poll_answered, submit,
  logged_in, login_answered,
}
use kiosk_screen.Activation.Paired.{
  IsPaired, nothing_runs, begin_activation-IsPaired, start_device_polling-IsPaired,
  setup_started-IsPaired, qr_drawn-IsPaired, setup_failed-IsPaired, polled_facts,
}

pub data LoginEvent : Type 0 where
  page_opened activation_retried page_left polling_ticked : LoginEvent
  setup_answered : DeviceActivationStart → LoginEvent
  qr_came : String → LoginEvent
  setup_refused : Option ℕ → Bool → LoginEvent
  poll_came : PollReply → LoginEvent
  submitted : Bool → Bool → LoginEvent
  login_came : Reply → LoginEvent

unfoldable pub login_step : LoginPage → LoginEvent → LoginPage
login_step a page_opened = open_login_page a
login_step a activation_retried = begin_activation a
login_step a page_left = stop_activation a
login_step a polling_ticked = poll_tick a
login_step a (setup_answered started) = setup_started started a
login_step a (qr_came qr) = qr_drawn qr a
login_step a (setup_refused status abort) = setup_failed status abort a
login_step a (poll_came r) = poll_answered r a
login_step a (submitted valid remember_me) = submit valid remember_me a
login_step a (login_came r) = login_answered r a

abbrev pub login_run : LoginPage → List LoginEvent → LoginPage
login_run a [] = a
login_run a (e ∷ es) = login_run (login_step a e) es

polling_failed-IsPaired :
    (p : ActivationPolling) (e : Option ErrorBody) (a : LoginPage)
    → a.setup ≡ none
    → a.phase ≡ ready_phase
    → IsPaired (polling_failed p e a)
unfolding polling_failed
polling_failed-IsPaired p e a unset ready =
    if_both IsPaired (is_expired_activation_error e) (begin_activation-IsPaired a) (
      start_device_polling-IsPaired p.device_code p.interval_seconds
        (record a { activation_error = some "Error de conexión. Reintentando…" }) unset ready)

activated-IsPaired :
    (user : AuthenticatedUser) (label : String) (a : LoginPage) → IsPaired (activated user label a)
unfolding activated stop_activation
activated-IsPaired user label a = nothing_runs a.attempt a.phase

poll_replied-IsPaired :
    (p : ActivationPolling) (r : PollReply) (a : LoginPage)
    → a.setup ≡ none
    → a.phase ≡ ready_phase
    → IsPaired a
    → IsPaired (poll_replied p r a)
unfolding poll_replied authorized_as
poll_replied-IsPaired p still_pending a unset ready h = h
poll_replied-IsPaired p (poll_refused e) a unset ready h =
    if_both IsPaired (is_expired_activation_error e) (polling_failed-IsPaired p e a unset ready) h
poll_replied-IsPaired p (authorized none label) a unset ready h =
    polling_failed-IsPaired p (thrown "authorized_without_user") a unset ready
poll_replied-IsPaired p (authorized (some user) label) a unset ready h =
    if_both IsPaired (is_blank (or_default label ""))
      (polling_failed-IsPaired p (thrown "authorized_without_display_label") a unset ready)
      (activated-IsPaired user (or_default label "") a)

-- A polling that goes on, whether it waits for the server or not.
repolled-IsPaired :
    (p q : ActivationPolling) (a : LoginPage)
    → a.polling ≡ some p
    → IsPaired a
    → IsPaired (record a { polling = some q })
repolled-IsPaired p q a e h =
    let (unset, ready) = polled_facts p a e h in
    rw (unset, ready) (record { current = refl; loads = refl; apart = refl; polls = refl })

poll_tick-IsPaired : (a : LoginPage) → IsPaired a → IsPaired (poll_tick a)
unfolding poll_tick
poll_tick-IsPaired a h = elim (Option-cases a.polling) [
  | inl e ↦ rw (poll_tick, e) h
  | inr (p, e) ↦ rw (poll_tick, e) (repolled-IsPaired p (record p { asked = true }) a e h)
]

poll_answered-IsPaired : (r : PollReply) (a : LoginPage) → IsPaired a → IsPaired (poll_answered r a)
unfolding poll_answered
poll_answered-IsPaired r a h = elim (Option-cases a.polling) [
  | inl e ↦ rw (poll_answered, e) h
  | inr (p, e) ↦
      let heard = record p { asked = false } in
      let (unset, ready) = polled_facts p a e h in
      rw (poll_answered, e)
        (if_both IsPaired p.asked
          (poll_replied-IsPaired p r (record a { polling = some heard }) unset ready
            (repolled-IsPaired p heard a e h))
          h)
]

logged_in-IsPaired :
    (remember_me : Bool) (r : Reply) (a : LoginPage)
    → IsPaired a
    → IsPaired (logged_in remember_me r a)
unfolding logged_in stop_activation
logged_in-IsPaired remember_me (replied user) a h = nothing_runs a.attempt a.phase
logged_in-IsPaired remember_me (refused status) a h = h

login_answered-IsPaired : (r : Reply) (a : LoginPage) → IsPaired a → IsPaired (login_answered r a)
unfolding login_answered
login_answered-IsPaired r a h = elim (Option-cases a.submitting) [
  | inl e ↦ rw (login_answered, e) h
  | inr (remember_me, e) ↦ rw (login_answered, e) (logged_in-IsPaired remember_me r a h)
]

login_step-IsPaired : (a : LoginPage) (e : LoginEvent) → IsPaired a → IsPaired (login_step a e)
unfolding login_step open_login_page stop_activation submit
login_step-IsPaired a page_opened h =
    if_both IsPaired (not (is_authenticated a.session)) (begin_activation-IsPaired a) h
login_step-IsPaired a activation_retried h = begin_activation-IsPaired a
login_step-IsPaired a page_left h = nothing_runs a.attempt a.phase
login_step-IsPaired a polling_ticked h = poll_tick-IsPaired a h
login_step-IsPaired a (setup_answered started) h = setup_started-IsPaired started a h
login_step-IsPaired a (qr_came qr) h = qr_drawn-IsPaired qr a h
login_step-IsPaired a (setup_refused status abort) h = setup_failed-IsPaired status abort a h
login_step-IsPaired a (poll_came r) h = poll_answered-IsPaired r a h
login_step-IsPaired a (submitted valid remember_me) h =
    if_both IsPaired (not valid || is_some a.submitting) h h
login_step-IsPaired a (login_came r) h = login_answered-IsPaired r a h

login_run_from : (es : List LoginEvent) (a : LoginPage) → IsPaired a → IsPaired (login_run a es)
login_run_from [] a h = h
login_run_from (e ∷ es) a h = login_run_from es (login_step a e) (login_step-IsPaired a e h)

-- After any events on the login page, in any order, a setup of an activation that is under way is
-- that of the latest attempt, while the page says that it loads and nothing is polled; and it polls
-- only while it shows the code.
pub login_run-IsPaired :
    (session : Session) (label : DisplayLabel) (es : List LoginEvent)
    → IsPaired (login_run (initial_login_page session label) es)
login_run-IsPaired session label es =
    login_run_from es (initial_login_page session label) (nothing_runs 0 idle_phase)
