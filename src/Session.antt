-- ===== src/Session.antt =====
-- Who is signed in: frontend/src/app/core/auth/auth.service.ts,
-- core/auth/auth-expired.interceptor.ts and auth/session.guard.ts. A request that waits is kept in
-- `in_flight`, with who asked for it. A storage that throws is one that is not there.
pub mod Runs
mod Tests
use kiosk_screen.Prelude.{
  ℕ, ◌+◌, ◌/◌, String, Bool, true, false, not, ◌&&◌, ◌||◌, Option, none, some, List, [], ◌∷◌, ◌++◌,
  ◌==◌, if◌then◌else◌, str_eq, is_some, get_elem?, remove_at, includes,
}

pub record AuthenticatedUser : Type 0 where
  pub id : String
  pub email : String
  pub display_name : String
  pub roles : List String

-- `localStorage`, as far as the two keys go.
pub record StoredFlags : Type 0 where
  pub kiosk_authenticated : Option String
  pub kiosk_remember : Option String

-- Who asked for `/api/auth/me`.
pub data Caller : Type 0 where
  nobody session_guarded root_guarded : Caller

pub data AuthRequest : Type 0 where
  logging_in : Bool → AuthRequest
  logging_out : AuthRequest
  asking_me : Caller → AuthRequest

pub data GuardDecision : Type 0 where
  admitted : GuardDecision
  sent_to : String → GuardDecision

pub record Session : Type 0 where
  pub user : Option AuthenticatedUser
  pub is_ready : Bool
  pub remember : Bool
  pub storage : Option StoredFlags
  pub in_flight : List AuthRequest
  pub decisions : List GuardDecision
  pub navigations : List String

abbrev pub is_true_flag : Option String → Bool
is_true_flag none = false
is_true_flag (some s) = str_eq s "true"

unfoldable pub read_auth_flag : Option StoredFlags → Bool
read_auth_flag none = false
read_auth_flag (some flags) = is_true_flag flags.kiosk_authenticated

unfoldable pub read_remember_flag : Option StoredFlags → Bool
read_remember_flag none = false
read_remember_flag (some flags) = is_true_flag flags.kiosk_remember

-- The service when the page is loaded.
unfoldable pub boot : Option StoredFlags → Session
boot storage = record {
  user = none;
  is_ready = read_auth_flag storage;
  remember = read_remember_flag storage;
  storage = storage;
  in_flight = [];
  decisions = [];
  navigations = [];
}

unfoldable pub is_authenticated : Session → Bool
is_authenticated s = s.is_ready && is_some s.user

abbrev pub stored_session : Bool → Option StoredFlags → Option StoredFlags
stored_session remember_me none = none
stored_session remember_me (some flags) = some (record {
  kiosk_authenticated = some "true";
  kiosk_remember = if remember_me then some "true" else none;
})

abbrev pub cleared_flags : Option StoredFlags → Option StoredFlags
cleared_flags none = none
cleared_flags (some flags) = some (record { kiosk_authenticated = none; kiosk_remember = none })

unfoldable pub persist : AuthenticatedUser → Bool → Session → Session
persist user remember_me s = record s {
  storage = stored_session remember_me s.storage;
  user = some user;
  is_ready = true;
  remember = remember_me;
}

unfoldable pub clear_session : Session → Session
clear_session s = record s {
  storage = cleared_flags s.storage;
  user = none;
  is_ready = false;
  remember = false;
}

abbrev pub launch_request : AuthRequest → Session → Session
launch_request r s = record s { in_flight = s.in_flight ++ r ∷ [] }

unfoldable pub login : Bool → Session → Session
login remember_me s = launch_request (logging_in remember_me) s

unfoldable pub logout : Session → Session
logout s = launch_request logging_out s

abbrev pub decide : GuardDecision → Session → Session
decide d s = record s { decisions = s.decisions ++ d ∷ [] }

-- What the caller of `refresh` does with its answer.
abbrev pub resolved : Caller → Bool → Session → Session
resolved nobody found s = s
resolved session_guarded found s = decide (if found then admitted else sent_to "/login") s
resolved root_guarded found s = decide (sent_to (if found then "/hall" else "/login")) s

unfoldable pub refresh_session : Caller → Session → Session
refresh_session caller s =
    if s.is_ready then launch_request (asking_me caller) s else resolved caller false s

unfoldable pub session_guard : Session → Session
unfolding is_authenticated refresh_session
session_guard s =
    if is_authenticated s then decide admitted s else refresh_session session_guarded s

unfoldable pub auth_root_guard : Session → Session
unfolding is_authenticated refresh_session
auth_root_guard s =
    if not (is_authenticated s) && s.is_ready
    then refresh_session root_guarded s
    else decide (sent_to (if is_authenticated s then "/hall" else "/login")) s

abbrev pub is_login_request : String → Bool
is_login_request url = includes url "/api/auth/login"

-- What the interceptor does when a request is answered with an error, whose status is none where
-- it is no `HttpErrorResponse`.
unfoldable pub auth_expired : String → Option ℕ → Session → Session
unfolding is_authenticated clear_session
auth_expired url none s = s
auth_expired url (some status) s =
    if (status == 401 || status == 403) && not (is_login_request url) && is_authenticated s
    then (let cleared = clear_session s in
        record cleared { navigations = cleared.navigations ++ "/login" ∷ [] })
    else s

pub data Reply : Type 0 where
  replied : AuthenticatedUser → Reply
  refused : Option ℕ → Reply

abbrev pub handle_reply : AuthRequest → Reply → Session → Session
handle_reply (logging_in remember_me) (replied user) s = persist user remember_me s
handle_reply (logging_in remember_me) (refused status) s = auth_expired "/api/auth/login" status s
handle_reply logging_out (replied user) s = clear_session s
handle_reply logging_out (refused status) s =
    clear_session (auth_expired "/api/auth/logout" status s)
handle_reply (asking_me caller) (replied user) s =
    resolved caller true (record s { user = some user })
handle_reply (asking_me caller) (refused status) s =
    resolved caller false (clear_session (auth_expired "/api/auth/me" status s))

-- The i-th request in flight is answered.
unfoldable pub reply : ℕ → Reply → Session → Session
unfolding persist auth_expired clear_session
reply i r s = elim (get_elem? s.in_flight i) [
  | none ↦ s
  | some request ↦ handle_reply request r (record s { in_flight = remove_at i s.in_flight })
]
