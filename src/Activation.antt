-- ===== src/Activation.antt =====
-- The login page: `LoginComponent` of frontend/src/app/auth/login.component.ts, without its template,
-- with `pollUntilAuthorized` and `isExpiredActivationError` of
-- frontend/src/app/core/auth/device-activation.service.ts. A subscription is a field while it lives.
pub mod Paired
pub mod Runs
pub mod Outcomes
mod Tests
use kiosk_screen.Prelude.{
  ℕ, ◌+◌, ◌*◌, max, String, Bool, true, false, not, ◌||◌, Option, none, some, [], ◌∷◌, ◌++◌, ◌==◌,
  if◌then◌else◌, str_eq, opt_nat_eq, or_default, is_blank, is_some,
}
use kiosk_screen.Admin.Errors.{ErrorBody, text, other, no_detail, adapt_api_error}
use kiosk_screen.Session.{
  AuthenticatedUser, Session, persist, is_authenticated, Reply, replied, refused, handle_reply,
  logging_in,
}
use kiosk_screen.Display.Label.{DisplayLabel, set_label}

pub data ActivationPhase : Type 0 where
  idle_phase loading_phase ready_phase error_phase : ActivationPhase

pub record DeviceActivationStart : Type 0 where
  pub user_code : String
  pub device_code : String
  pub poll_interval_seconds : ℕ

-- The setup of an attempt: its start is with the server, or its QR code is drawn.
pub data ActivationSetup : Type 0 where
  starting : ℕ → ActivationSetup
  drawing_qr : ℕ → DeviceActivationStart → ActivationSetup

-- `asked` is set while a poll is with the server.
pub record ActivationPolling : Type 0 where
  pub device_code : String
  pub interval_seconds : ℕ
  pub asked : Bool

pub record LoginPage : Type 0 where
  pub submitting : Option Bool
  pub error_message : Option String
  pub phase : ActivationPhase
  pub activation_error : Option String
  pub user_code : Option String
  pub qr_data_url : Option String
  pub polling : Option ActivationPolling
  pub setup : Option ActivationSetup
  pub attempt : ℕ
  pub session : Session
  pub display_label : DisplayLabel

abbrev pub initial_login_page : Session → DisplayLabel → LoginPage
initial_login_page session label = record {
  submitting = none;
  error_message = none;
  phase = idle_phase;
  activation_error = none;
  user_code = none;
  qr_data_url = none;
  polling = none;
  setup = none;
  attempt = 0;
  session = session;
  display_label = label;
}

-- `stopPolling` and `stopActivationSetup`, which the code calls together.
unfoldable pub stop_activation : LoginPage → LoginPage
stop_activation a = record a { polling = none; setup = none }

unfoldable pub begin_activation : LoginPage → LoginPage
unfolding stop_activation
begin_activation a = record (stop_activation a) {
  attempt = a.attempt + 1;
  phase = loading_phase;
  activation_error = none;
  user_code = none;
  qr_data_url = none;
  setup = some (starting (a.attempt + 1));
}

unfoldable pub open_login_page : LoginPage → LoginPage
unfolding begin_activation is_authenticated
open_login_page a = if not (is_authenticated a.session) then begin_activation a else a

abbrev pub poll_interval_ms : ActivationPolling → ℕ
poll_interval_ms p = max p.interval_seconds 1 * 1000

unfoldable pub start_device_polling : String → ℕ → LoginPage → LoginPage
start_device_polling device_code seconds a = record a {
  polling = some (record { device_code = device_code; interval_seconds = seconds; asked = false });
}

-- The server has started the setup of the attempt.
unfoldable pub started_setup : ℕ → DeviceActivationStart → LoginPage → LoginPage
started_setup n started a =
    if n == a.attempt
    then record a { user_code = some started.user_code; setup = some (drawing_qr n started) }
    else record a { setup = none }

unfoldable pub finished_setup : ℕ → DeviceActivationStart → String → LoginPage → LoginPage
unfolding start_device_polling
finished_setup n started qr a =
    if n == a.attempt
    then (start_device_polling started.device_code started.poll_interval_seconds
        (record a { setup = none; qr_data_url = some qr; phase = ready_phase }))
    else record a { setup = none }

-- `isRequestAborted`, of the status of an `HttpErrorResponse` and of whether it is an `AbortError`.
abbrev pub is_request_aborted : Option ℕ → Bool → Bool
is_request_aborted status abort = opt_nat_eq status (some 0) || abort

abbrev pub attempt_of : ActivationSetup → ℕ
attempt_of (starting n) = n
attempt_of (drawing_qr n started) = n

unfoldable pub failed_setup : ℕ → Option ℕ → Bool → LoginPage → LoginPage
failed_setup n status abort a =
    if not (n == a.attempt) || is_request_aborted status abort
    then record a { setup = none }
    else record a {
      setup = none;
      phase = error_phase;
      activation_error = some "No se pudo iniciar la activación. Inténtalo de nuevo.";
    }

unfoldable pub setup_started : DeviceActivationStart → LoginPage → LoginPage
unfolding started_setup
setup_started started a = elim a.setup [
  | none ↦ a
  | some setup ↦ elim setup [ starting n ↦ started_setup n started a | drawing_qr n before ↦ a ]
]

unfoldable pub qr_drawn : String → LoginPage → LoginPage
unfolding finished_setup
qr_drawn qr a = elim a.setup [
  | none ↦ a
  | some setup ↦ elim setup [
    | starting n ↦ a
    | drawing_qr n started ↦ finished_setup n started qr a
  ]
]

unfoldable pub setup_failed : Option ℕ → Bool → LoginPage → LoginPage
unfolding failed_setup
setup_failed status abort a = elim a.setup [
  | none ↦ a
  | some setup ↦ failed_setup (attempt_of setup) status abort a
]

unfoldable pub is_expired_activation_error : Option ErrorBody → Bool
is_expired_activation_error e =
    str_eq (adapt_api_error e).code "activation_expired"
    || str_eq (adapt_api_error e).code "activation_not_found"

-- The subscriber's `error`.
unfoldable pub polling_failed : ActivationPolling → Option ErrorBody → LoginPage → LoginPage
unfolding is_expired_activation_error begin_activation start_device_polling
polling_failed p e a =
    if is_expired_activation_error e
    then begin_activation a
    else (start_device_polling p.device_code p.interval_seconds
        (record a { activation_error = some "Error de conexión. Reintentando…" }))

-- `new Error(message)`
abbrev pub thrown : String → Option ErrorBody
thrown message = some (record {
  envelope = record {
    code = other;
    message = text message;
    category = other;
    correlation_id = other;
  };
  detail = no_detail;
})

-- The subscriber's `next`. `rememberMeOnActivation` is false at every assignment.
unfoldable pub activated : AuthenticatedUser → String → LoginPage → LoginPage
unfolding stop_activation
activated user label a =
    let session = persist user false a.session in
    record (stop_activation a) {
      display_label = set_label label a.display_label;
      session = record session { navigations = session.navigations ++ "/display" ∷ [] };
    }

pub data PollReply : Type 0 where
  still_pending : PollReply
  poll_refused : Option ErrorBody → PollReply
  authorized : Option AuthenticatedUser → Option String → PollReply

unfoldable pub authorized_as :
    ActivationPolling → Option AuthenticatedUser → String → LoginPage → LoginPage
unfolding polling_failed activated
authorized_as p none label a = polling_failed p (thrown "authorized_without_user") a
authorized_as p (some user) label a =
    if is_blank label
    then polling_failed p (thrown "authorized_without_display_label") a
    else activated user label a

unfoldable pub poll_replied : ActivationPolling → PollReply → LoginPage → LoginPage
unfolding polling_failed is_expired_activation_error authorized_as
poll_replied p still_pending a = a
poll_replied p (poll_refused e) a =
    if is_expired_activation_error e then polling_failed p e a else a
poll_replied p (authorized user label) a = authorized_as p user (or_default label "") a

-- The timer of the polling fires: `switchMap` drops a poll that is with the server and sends the next.
unfoldable pub poll_tick : LoginPage → LoginPage
poll_tick a = elim a.polling [
  | none ↦ a
  | some p ↦ record a { polling = some (record p { asked = true }) }
]

unfoldable pub poll_answered : PollReply → LoginPage → LoginPage
unfolding poll_replied
poll_answered r a = elim a.polling [
  | none ↦ a
  | some p ↦
      if p.asked
      then poll_replied p r (record a { polling = some (record p { asked = false }) })
      else a
]

-- `submit`, where `valid` tells whether the form is.
unfoldable pub submit : Bool → Bool → LoginPage → LoginPage
submit valid remember_me a =
    if not valid || is_some a.submitting
    then a
    else record a { error_message = none; submitting = some remember_me }

unfoldable pub logged_in : Bool → Reply → LoginPage → LoginPage
unfolding stop_activation
logged_in remember_me (replied user) a =
    let session = handle_reply (logging_in remember_me) (replied user) a.session in
    record (stop_activation a) {
      submitting = none;
      session = record session { navigations = session.navigations ++ "/hall" ∷ [] };
    }
logged_in remember_me (refused status) a = record a {
  submitting = none;
  session = handle_reply (logging_in remember_me) (refused status) a.session;
  error_message = some "Correo o contraseña incorrectos.";
}

unfoldable pub login_answered : Reply → LoginPage → LoginPage
unfolding logged_in
login_answered r a = elim a.submitting [ none ↦ a | some remember_me ↦ logged_in remember_me r a ]
