-- ===== src/Activation/Outcomes.antt =====
-- Where an activation ends: with the user that the server names, or nowhere.
use kiosk_screen.Prelude.{
  codes, ℕ, String, ◌≡◌, refl, sym, Bool, true, false, not, ◌||◌, Option, none, some, ◌==◌, arith,
  if_both, if_each, is_some, Option-cases, is_blank, ◌⊎◌, inl, inr,
}
use kiosk_screen.Admin.Errors.{ErrorBody}
use kiosk_screen.Session.{AuthenticatedUser}
use kiosk_screen.Activation.{
  DeviceActivationStart, ActivationSetup, ActivationPolling, LoginPage, stop_activation,
  begin_activation, start_device_polling, is_request_aborted, attempt_of, failed_setup,
  setup_started, qr_drawn, setup_failed, is_expired_activation_error, polling_failed, thrown,
  PollReply, still_pending, poll_refused, authorized, authorized_as, poll_replied, poll_tick,
  poll_answered,
}
use kiosk_screen.Activation.Paired.{IsPaired, Paired, unpolled, is_loading_phase}

-- The reply names a user, and a label that is not blank.
pub record Authorizes (r : PollReply) : Type 0 where
  pub user : AuthenticatedUser
  pub label : String
  pub names : r ≡ authorized (some user) (some label)
  pub labelled : is_blank label ≡ false

polling_failed-session :
    (p : ActivationPolling) (e : Option ErrorBody) (a : LoginPage)
    → (polling_failed p e a).session ≡ a.session
unfolding polling_failed begin_activation stop_activation start_device_polling
polling_failed-session p e a =
    if_both (λ (b : LoginPage). b.session ≡ a.session) (is_expired_activation_error e) refl refl

poll_replied_session :
    (p : ActivationPolling) (r : PollReply) (a : LoginPage)
    → ((poll_replied p r a).session ≡ a.session) ⊎ Authorizes r
unfolding poll_replied authorized_as is_blank codes
poll_replied_session p still_pending a = inl refl
poll_replied_session p (poll_refused e) a = inl (
    if_both (λ (b : LoginPage). b.session ≡ a.session) (is_expired_activation_error e)
      (polling_failed-session p e a) refl)
poll_replied_session p (authorized none label) a =
    inl (polling_failed-session p (thrown "authorized_without_user") a)
poll_replied_session p (authorized (some user) none) a =
    inl (polling_failed-session p (thrown "authorized_without_display_label") a)
poll_replied_session p (authorized (some user) (some label)) a =
    if_each
      (λ (b : LoginPage).
        (b.session ≡ a.session) ⊎ Authorizes (authorized (some user) (some label)))
      (is_blank label)
      (λ blank. inl (polling_failed-session p (thrown "authorized_without_display_label") a))
      λ named. inr (record { user = user; label = label; names = refl; labelled = named })

-- The answer to a poll changes the session only while something is polled, and only if it names a
-- user and a label that is not blank.
pub poll_answered_session :
    (r : PollReply) (a : LoginPage)
    → ((poll_answered r a).session ≡ a.session) ⊎ (is_some a.polling ≡ true) × Authorizes r
unfolding poll_answered
poll_answered_session r a = elim (Option-cases a.polling) [
  | inl e ↦ inl (rw (poll_answered, e) refl)
  | inr (p, e) ↦
      rw (poll_answered, e)
        (if_both (λ (b : LoginPage). (b.session ≡ a.session) ⊎ (true ≡ true) × Authorizes r) p.asked
          (elim (poll_replied_session p r
            (record a { polling = some (record p { asked = false }) })) [
              | inl same ↦ inl same
              | inr signs ↦ inr (refl, signs)
            ])
          (inl refl))
]

-- What an activation could still do to a page.
pub record IsStalled (a : LoginPage) : Type 0 where
  pub loading : is_loading_phase a.phase ≡ true
  pub unstarted : (started : DeviceActivationStart) → setup_started started a ≡ a
  pub undrawn : (qr : String) → qr_drawn qr a ≡ a
  pub unticked : poll_tick a ≡ a
  pub unanswered : (r : PollReply) → poll_answered r a ≡ a

stalled :
    (a : LoginPage)
    → a.setup ≡ none
    → a.polling ≡ none
    → is_loading_phase a.phase ≡ true
    → IsStalled a
unfolding setup_started qr_drawn poll_tick poll_answered
stalled a unset unpolled_now loading = record {
  loading = loading;
  unstarted = λ started. simp (setup_started, unset);
  undrawn = λ qr. simp (qr_drawn, unset);
  unticked = simp (poll_tick, unpolled_now);
  unanswered = λ r. simp (poll_answered, unpolled_now);
}

aborted_setup :
    (n : ℕ) (abort : Bool) (a : LoginPage)
    → failed_setup n (some 0) abort a ≡ record a { setup = none }
unfolding failed_setup
aborted_setup n abort a =
    if_each (λ (b : LoginPage). b ≡ record a { setup = none })
      (not (n == a.attempt) || is_request_aborted (some 0) abort) (λ hit. refl)
      (λ miss. absurd (ground (arith, miss)))

-- If the setup of an activation fails without an answer of the server (status 0), the page goes on
-- saying that it loads, and nothing that it waits for is under way: no answer, code or timer of the
-- activation changes it.
pub setup_failed_stalls :
    (setup : ActivationSetup) (abort : Bool) (a : LoginPage)
    → IsPaired a
    → a.setup ≡ some setup
    → IsStalled (setup_failed (some 0) abort a)
unfolding setup_failed
setup_failed_stalls setup abort a h e =
    let facts : Paired (some setup) a.polling a.attempt a.phase = rw (sym e) h in
    rw (setup_failed, e, aborted_setup (attempt_of setup) abort a)
      (stalled (record a { setup = none }) refl (unpolled setup a e h)
        (ground (arith, facts.loads)))
