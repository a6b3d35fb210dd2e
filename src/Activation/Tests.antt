-- ===== src/Activation/Tests.antt =====
-- An activation whose code expires, one that is authorized, and one that the network cuts off.
use kiosk_screen.Prelude.{
  ◌≡◌, refl, ◌⊎◌, true, false, none, some, List, [], ◌∷◌, is_some, trim, trim_start, trim_end,
  codes, is_blank,
}
use kiosk_screen.Session.{AuthenticatedUser, boot, is_authenticated, persist, read_auth_flag}
use kiosk_screen.Display.Label.{set_label}
use kiosk_screen.Activation.{
  DeviceActivationStart, LoginPage, starting, initial_login_page, authorized, still_pending,
  begin_activation, stop_activation, setup_failed, setup_started, started_setup, qr_drawn,
  finished_setup, start_device_polling, poll_tick, poll_answered, poll_replied, authorized_as,
  activated, open_login_page,
}
use kiosk_screen.Activation.Paired.{IsPaired, begin_activation-IsPaired}
use kiosk_screen.Activation.Runs.{
  LoginEvent, page_opened, setup_answered, qr_came, polling_ticked, poll_came, login_step,
  login_run, login_run-IsPaired,
}
use kiosk_screen.Activation.Outcomes.{
  IsStalled, setup_failed_stalls, Authorizes, poll_answered_session,
}

abbrev eva : AuthenticatedUser
eva = record { id = "2"; email = "eva@bar"; display_name = "Eva"; roles = [] }

abbrev fresh_page : LoginPage
fresh_page = initial_login_page (boot none) (record { label = none; stored = some none })

abbrev code_given : DeviceActivationStart
code_given = record { user_code = "ABCDEF"; device_code = "d"; poll_interval_seconds = 5 }

abbrev authorizing : List LoginEvent
authorizing =
    page_opened
    ∷ setup_answered code_given
    ∷ qr_came "qr"
    ∷ polling_ticked
    ∷ poll_came still_pending
    ∷ polling_ticked
    ∷ poll_came (authorized (some eva) (some " Bar "))
    ∷ []

authorized_page :
    let a = login_run fresh_page authorizing in
    (a.session.navigations ≡ "/display" ∷ [])
    × (a.display_label.label ≡ some "Bar")
    × (is_some a.session.user ≡ true)
    × (a.attempt ≡ 1)
unfolding login_step open_login_page is_authenticated begin_activation stop_activation setup_started
    started_setup qr_drawn finished_setup start_device_polling poll_tick poll_answered poll_replied
    authorized_as activated persist set_label trim trim_start trim_end codes is_blank boot
    read_auth_flag
authorized_page = (refl, refl, refl, refl)

login_run-IsPaired_example : IsPaired (login_run fresh_page authorizing)
login_run-IsPaired_example =
    login_run-IsPaired (boot none) (record { label = none; stored = some none }) authorizing

setup_failed_stalls_example : IsStalled (setup_failed (some 0) false (begin_activation fresh_page))
unfolding begin_activation
setup_failed_stalls_example =
    setup_failed_stalls (starting 1) false (begin_activation fresh_page)
      (begin_activation-IsPaired fresh_page) refl

abbrev polling_page : LoginPage
polling_page =
    login_run fresh_page
      (page_opened ∷ setup_answered code_given ∷ qr_came "qr" ∷ polling_ticked ∷ [])

poll_answered_session_example :
    let r = authorized (some eva) (some " Bar ") in
    ((poll_answered r polling_page).session ≡ polling_page.session)
    ⊎ (is_some polling_page.polling ≡ true) × Authorizes r
poll_answered_session_example =
    poll_answered_session (authorized (some eva) (some " Bar ")) polling_page
