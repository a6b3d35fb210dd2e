-- ===== src/Display/Polling.antt =====
-- frontend/src/app/display/display-polling.service.ts. A request in flight is a field, its answer an event;
-- the requests of `pollNow`, whose subscription the caller holds, are counted in `loose`.
pub mod Lifecycle
pub mod Runs
mod Tests
use kiosk_screen.Prelude.{
  ℕ, zero, suc, ◌+◌, ◌-◌, ◌*◌, ◌/◌, ◌^◌, min, max, String, ◌⊎◌, inl, inr, Bool, true, false, not,
  ◌||◌, Option, none, some, List, [], ◌∷◌, ◌++◌, ltb, leb, ◌==◌, if◌then◌else◌, str_eq, opt_nat_eq,
}
use kiosk_screen.Display.Payloads.{DisplayState}
use kiosk_screen.Display.Fingerprint.{equal_by_display_fingerprint}

abbrev pub min_backoff_ms : ℕ
min_backoff_ms = 1000

abbrev pub max_backoff_ms : ℕ
max_backoff_ms = 30000

-- The status of an HTTP error, and the category of the contract that `adaptApiError` makes of it.
pub record Failure : Type 0 where
  pub status : Option ℕ
  pub category : String

pub data InFlight : Type 0 where
  opening polling : InFlight

-- `open_results` records the calls of the callback of `open`; `logged_out` the end of the session.
pub record Poller : Type 0 where
  pub state : Option DisplayState
  pub loading : Bool
  pub error : Option Failure
  pub open_error : Option Failure
  pub open_in_progress : Bool
  pub consecutive_failures : ℕ
  pub poll_timer : Option ℕ
  pub open_retry_timer : Option ℕ
  pub in_flight : Option InFlight
  pub armed_interval_ms : ℕ
  pub open_consecutive_failures : ℕ
  pub last_fingerprint_state : Option DisplayState
  pub running : Bool
  pub open_callback : Bool
  pub open_results : List (Option DisplayState)
  pub loose : ℕ
  pub logged_out : Bool

abbrev pub initial_poller : Poller
initial_poller = record {
  state = none;
  loading = false;
  error = none;
  open_error = none;
  open_in_progress = false;
  consecutive_failures = 0;
  poll_timer = none;
  open_retry_timer = none;
  in_flight = none;
  armed_interval_ms = 5000;
  open_consecutive_failures = 0;
  last_fingerprint_state = none;
  running = false;
  open_callback = false;
  open_results = [];
  loose = 0;
  logged_out = false;
}

-- `Math.random()` is `random` thousandths. The jitter is up to a fifth of the base to both sides: the
-- base times (4000 + 2 * random) / 5000, rounded.
unfoldable pub next_backoff_ms : ℕ → ℕ → Poller → ℕ
next_backoff_ms random zero s = s.armed_interval_ms
next_backoff_ms random (suc n) s =
    let base = min max_backoff_ms (min_backoff_ms * 2 ^ n) in
    max min_backoff_ms (min max_backoff_ms ((base * (4000 + 2 * random) + 2500) / 5000))

abbrev pub schedule_poll : ℕ → Poller → Poller
schedule_poll delay s = record s { poll_timer = if s.running then some delay else none }

-- The `finalize` of a fetch, which also runs when its subscription is dropped.
unfoldable pub finalize_fetch : ℕ → Poller → Poller
finalize_fetch random s =
    let idle = record s { loading = false } in
    if s.running then schedule_poll (next_backoff_ms random s.consecutive_failures s) idle else idle

-- `this.inFlightSub?.unsubscribe()`
unfoldable pub drop_in_flight : ℕ → Poller → Poller
drop_in_flight random s = elim s.in_flight [
  | none ↦ s
  | some opening ↦ record s { in_flight = none }
  | some polling ↦ finalize_fetch random (record s { in_flight = none })
]

unfoldable pub stop : ℕ → Poller → Poller
stop random s =
    record (drop_in_flight random
      (record s { running = false; poll_timer = none; open_retry_timer = none })) {
        open_callback = false;
      }

unfoldable pub handle_fatal_error : ℕ → Poller → Poller
handle_fatal_error random s = record (stop random s) { logged_out = true }

abbrev pub is_fatal_error : Failure → Bool
is_fatal_error f =
    opt_nat_eq f.status (some 401)
    || opt_nat_eq f.status (some 403)
    || str_eq f.category "permission"

unfoldable pub execute_open : ℕ → Poller → Poller
execute_open random s =
    record (drop_in_flight random (record s { open_in_progress = true; open_error = none })) {
      in_flight = some opening;
    }

unfoldable pub perform_open : ℕ → ℕ → Poller → Poller
perform_open random delay s =
    if leb delay 0
    then execute_open random (record s { open_retry_timer = none })
    else record s { open_retry_timer = some delay }

unfoldable pub open_display : ℕ → Bool → Poller → Poller
open_display random has_callback s =
    perform_open random 0 (record s { open_callback = has_callback; open_retry_timer = none })

unfoldable pub retry_open : ℕ → Poller → Poller
retry_open random s =
    perform_open random
      (if ltb 0 s.open_consecutive_failures
        then next_backoff_ms random s.open_consecutive_failures s
        else 0)
      (record s { open_retry_timer = none })

unfoldable pub start_polling : ℕ → Poller → Poller
start_polling configured_interval_ms s =
    let interval = max 1000 configured_interval_ms in
    record s {
      running = true;
      armed_interval_ms = interval;
      consecutive_failures = 0;
      poll_timer = some interval;
    }

-- The caller subscribes to what `pollNow` returns.
unfoldable pub poll_now : Poller → Poller
poll_now s =
    if s.running then record s { poll_timer = none; loading = true; loose = s.loose + 1 } else s

unfoldable pub reconfigure_interval : ℕ → Poller → Poller
reconfigure_interval configured_interval_ms s =
    let next = max 1000 configured_interval_ms in
    if next == s.armed_interval_ms
    then s
    else if s.running
    then record s { armed_interval_ms = next; poll_timer = some next }
    else record s { armed_interval_ms = next }

-- The timer of `schedulePoll` fires.
unfoldable pub fire_poll_timer : ℕ → Poller → Poller
fire_poll_timer random s = elim s.poll_timer [
  | none ↦ s
  | some delay ↦
      let idle = record s { poll_timer = none } in
      if s.running
      then record (drop_in_flight random idle) { in_flight = some polling; loading = true }
      else idle
]

unfoldable pub fire_open_timer : ℕ → Poller → Poller
fire_open_timer random s = elim s.open_retry_timer [
  | none ↦ s
  | some delay ↦ execute_open random (record s { open_retry_timer = none })
]

unfoldable pub publish_state_if_changed : DisplayState → Poller → Poller
publish_state_if_changed state s =
    if not (equal_by_display_fingerprint s.last_fingerprint_state state)
    then record s { last_fingerprint_state = some state; state = some state }
    else s

unfoldable pub fetch_failed : ℕ → Failure → Poller → Poller
fetch_failed random f s =
    let told = record s { error = some f } in
    if is_fatal_error f
    then handle_fatal_error random told
    else record told { consecutive_failures = s.consecutive_failures + 1 }

-- What an answer is: the state, or an error.
abbrev pub Answer : Type 0
Answer = DisplayState ⊎ Failure

unfoldable pub fetch_answered : ℕ → Answer → Poller → Poller
fetch_answered random (inl state) s =
    finalize_fetch random
      (record (publish_state_if_changed state s) { error = none; consecutive_failures = 0 })
fetch_answered random (inr f) s = finalize_fetch random (fetch_failed random f s)

abbrev pub tell : Option DisplayState → Poller → Poller
tell result s =
    if s.open_callback then record s { open_results = s.open_results ++ result ∷ [] } else s

unfoldable pub open_answered : ℕ → Answer → Poller → Poller
open_answered random (inl state) s = tell (some state) (record s {
  open_in_progress = false;
  open_consecutive_failures = 0;
  last_fingerprint_state = some state;
})
open_answered random (inr f) s =
    let told = record s { open_in_progress = false; open_error = some f } in
    if is_fatal_error f
    then tell none (handle_fatal_error random told)
    else tell none (record told { open_consecutive_failures = s.open_consecutive_failures + 1 })

-- The answer for the request in flight.
unfoldable pub answer_in_flight : ℕ → Answer → Poller → Poller
answer_in_flight random answer s = elim s.in_flight [
  | none ↦ s
  | some opening ↦ open_answered random answer (record s { in_flight = none })
  | some polling ↦ fetch_answered random answer (record s { in_flight = none })
]

-- The answer for a request of `pollNow`.
unfoldable pub answer_loose : ℕ → Answer → Poller → Poller
answer_loose random answer s =
    if ltb 0 s.loose then fetch_answered random answer (record s { loose = s.loose - 1 }) else s
