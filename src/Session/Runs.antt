-- ===== src/Session/Runs.antt =====
-- Runs of the session: sign-ins, sign-outs, guards and expired requests in any order.
use kiosk_screen.Prelude.{
  ℕ, String, ◌≡◌, refl, ap, ◌⊎◌, inl, inr, Bool, true, false, not, ◌&&◌, ◌||◌, Option, none, some,
  List, [], ◌∷◌, ◌++◌, arith, ◌==◌, Bool-cases, if_both, Option-cases, length, get_elem?, remove_at,
  get_elem?-last,
}
use kiosk_screen.Session.{
  AuthenticatedUser, StoredFlags, Caller, nobody, session_guarded, root_guarded, AuthRequest,
  logging_in, logging_out, asking_me, admitted, sent_to, Session, read_auth_flag,
  read_remember_flag, boot, is_authenticated, persist, clear_session, launch_request, login, logout,
  resolved, refresh_session, session_guard, auth_root_guard, is_login_request, auth_expired, Reply,
  replied, refused, handle_reply, reply,
}

pub data SessionEvent : Type 0 where
  login_sent : Bool → SessionEvent
  logout_sent : SessionEvent
  activated : AuthenticatedUser → Bool → SessionEvent
  refresh_sent session_guard_ran root_guard_ran : SessionEvent
  reply_came : ℕ → Reply → SessionEvent
  request_failed : String → Option ℕ → SessionEvent

unfoldable pub session_step : Session → SessionEvent → Session
session_step s (login_sent remember_me) = login remember_me s
session_step s logout_sent = logout s
session_step s (activated user remember_me) = persist user remember_me s
session_step s refresh_sent = refresh_session nobody s
session_step s session_guard_ran = session_guard s
session_step s root_guard_ran = auth_root_guard s
session_step s (reply_came i r) = reply i r s
session_step s (request_failed url status) = auth_expired url status s

abbrev pub session_run : Session → List SessionEvent → Session
session_run s [] = s
session_run s (e ∷ es) = session_run (session_step s e) es

-- What is stored says what the signals say, where there is a storage.
abbrev pub IsMirrored : Session → Type 0
IsMirrored s =
    (s.storage ≡ none)
    ⊎ ((read_auth_flag s.storage ≡ s.is_ready) × (read_remember_flag s.storage ≡ s.remember))

persist-IsMirrored :
    (user : AuthenticatedUser) (remember_me : Bool) (s : Session)
    → IsMirrored (persist user remember_me s)
unfolding persist read_auth_flag read_remember_flag
persist-IsMirrored user remember_me s = elim (Option-cases s.storage) [
  | inl e ↦ inl (ground (arith, e))
  | inr (flags, e) ↦ inr (ground (arith, e))
]

clear_session-IsMirrored : (s : Session) → IsMirrored (clear_session s)
unfolding clear_session read_auth_flag read_remember_flag
clear_session-IsMirrored s = elim (Option-cases s.storage) [
  | inl e ↦ inl (ground (arith, e))
  | inr (flags, e) ↦ inr (ground (arith, e))
]

resolved-IsMirrored :
    (caller : Caller) (found : Bool) (s : Session)
    → IsMirrored s
    → IsMirrored (resolved caller found s)
resolved-IsMirrored nobody found s h = h
resolved-IsMirrored session_guarded found s h = h
resolved-IsMirrored root_guarded found s h = h

refresh_session-IsMirrored :
    (caller : Caller) (s : Session) → IsMirrored s → IsMirrored (refresh_session caller s)
unfolding refresh_session
refresh_session-IsMirrored caller s h =
    if_both IsMirrored s.is_ready h (resolved-IsMirrored caller false s h)

auth_expired-IsMirrored :
    (url : String) (status : Option ℕ) (s : Session)
    → IsMirrored s
    → IsMirrored (auth_expired url status s)
unfolding auth_expired
auth_expired-IsMirrored url none s h = h
auth_expired-IsMirrored url (some status) s h =
    if_both IsMirrored
      ((status == 401 || status == 403) && not (is_login_request url) && is_authenticated s)
      (clear_session-IsMirrored s) h

handle_reply-IsMirrored :
    (request : AuthRequest) (r : Reply) (s : Session)
    → IsMirrored s
    → IsMirrored (handle_reply request r s)
handle_reply-IsMirrored (logging_in remember_me) (replied user) s h =
    persist-IsMirrored user remember_me s
handle_reply-IsMirrored (logging_in remember_me) (refused status) s h =
    auth_expired-IsMirrored "/api/auth/login" status s h
handle_reply-IsMirrored logging_out (replied user) s h = clear_session-IsMirrored s
handle_reply-IsMirrored logging_out (refused status) s h =
    clear_session-IsMirrored (auth_expired "/api/auth/logout" status s)
handle_reply-IsMirrored (asking_me caller) (replied user) s h =
    resolved-IsMirrored caller true (record s { user = some user }) h
handle_reply-IsMirrored (asking_me caller) (refused status) s h =
    resolved-IsMirrored caller false (clear_session (auth_expired "/api/auth/me" status s))
      (clear_session-IsMirrored (auth_expired "/api/auth/me" status s))

reply-IsMirrored : (i : ℕ) (r : Reply) (s : Session) → IsMirrored s → IsMirrored (reply i r s)
unfolding reply
reply-IsMirrored i r s h = elim (Option-cases (get_elem? s.in_flight i)) [
  | inl e ↦ rw (reply, e) h
  | inr (request, e) ↦
      rw (reply, e)
        (handle_reply-IsMirrored request r (record s { in_flight = remove_at i s.in_flight }) h)
]

session_step-IsMirrored :
    (s : Session) (e : SessionEvent) → IsMirrored s → IsMirrored (session_step s e)
unfolding session_step login logout session_guard auth_root_guard
session_step-IsMirrored s (login_sent remember_me) h = h
session_step-IsMirrored s logout_sent h = h
session_step-IsMirrored s (activated user remember_me) h = persist-IsMirrored user remember_me s
session_step-IsMirrored s refresh_sent h = refresh_session-IsMirrored nobody s h
session_step-IsMirrored s session_guard_ran h =
    if_both IsMirrored (is_authenticated s) h (refresh_session-IsMirrored session_guarded s h)
session_step-IsMirrored s root_guard_ran h =
    if_both IsMirrored (not (is_authenticated s) && s.is_ready)
      (refresh_session-IsMirrored root_guarded s h) h
session_step-IsMirrored s (reply_came i r) h = reply-IsMirrored i r s h
session_step-IsMirrored s (request_failed url status) h = auth_expired-IsMirrored url status s h

session_run_from :
    (es : List SessionEvent) (s : Session) → IsMirrored s → IsMirrored (session_run s es)
session_run_from [] s h = h
session_run_from (e ∷ es) s h =
    session_run_from es (session_step s e) (session_step-IsMirrored s e h)

boot-IsMirrored : (storage : Option StoredFlags) → IsMirrored (boot storage)
unfolding boot
boot-IsMirrored storage = inr (refl, refl)

-- After any events from any start, where there is a storage, what it holds is what the service
-- holds: whether there is a session, and whether it is to be remembered.
pub session_run-IsMirrored :
    (storage : Option StoredFlags) (es : List SessionEvent)
    → IsMirrored (session_run (boot storage) es)
session_run-IsMirrored storage es = session_run_from es (boot storage) (boot-IsMirrored storage)

signed_out :
    (ns : List String) (s : Session)
    → is_authenticated (record (clear_session s) { navigations = ns }) ≡ false
unfolding is_authenticated clear_session
signed_out ns s = refl

-- A request other than the login that is answered with 401 or 403 leaves nobody signed in.
pub auth_expired_signs_out :
    (url : String) (status : ℕ) (s : Session)
    → is_login_request url ≡ false
    → (status ≡ 401) ⊎ (status ≡ 403)
    → is_authenticated (auth_expired url (some status) s) ≡ false
unfolding auth_expired
auth_expired_signs_out url status s h e =
    let hit : (status == 401 || status == 403) ≡ true = ground (arith, e) in
    elim (Bool-cases (is_authenticated s)) [
      | inl inside ↦
          rw (auth_expired, hit, h, inside) (signed_out (s.navigations ++ "/login" ∷ []) s)
      | inr outside ↦ rw (auth_expired, hit, h, outside) outside
    ]

-- What the guard has decided once the server has answered: it admits the user whom the answer
-- names, or the session is cleared and the user sent away.
abbrev pub IsDecided : Reply → Session → Session → Type 0
IsDecided (replied user) s s' =
    (s'.decisions ≡ s.decisions ++ admitted ∷ []) × (s'.user ≡ some user)
IsDecided (refused status) s s' =
    (s'.decisions ≡ s.decisions ++ sent_to "/login" ∷ []) × (s'.is_ready ≡ false)

auth_expired-decisions :
    (url : String) (status : Option ℕ) (s : Session)
    → (auth_expired url status s).decisions ≡ s.decisions
unfolding auth_expired clear_session
auth_expired-decisions url none s = refl
auth_expired-decisions url (some status) s =
    if_both (λ (s' : Session). s'.decisions ≡ s.decisions)
      ((status == 401 || status == 403) && not (is_login_request url) && is_authenticated s) refl
      refl

me_answered :
    (r : Reply) (s : Session)
    → IsDecided r s (reply (length s.in_flight) r (launch_request (asking_me session_guarded) s))
unfolding reply clear_session
me_answered (replied user) s =
    rw (reply, get_elem?-last s.in_flight (asking_me session_guarded)) (refl, refl)
me_answered (refused status) s =
    rw (reply, get_elem?-last s.in_flight (asking_me session_guarded))
      (
        ap (λ ds. ds ++ sent_to "/login" ∷ []) (auth_expired-decisions "/api/auth/me" status _),
        refl,
      )

guard_asks :
    (s : Session)
    → is_authenticated s ≡ false
    → s.is_ready ≡ true
    → session_guard s ≡ launch_request (asking_me session_guarded) s
unfolding session_guard refresh_session
guard_asks s h known = ground (arith, h, known)

guard_refuses :
    (s : Session)
    → is_authenticated s ≡ false
    → s.is_ready ≡ false
    → session_guard s ≡ record s { decisions = s.decisions ++ sent_to "/login" ∷ [] }
unfolding session_guard refresh_session
guard_refuses s h unknown = ground (arith, h, unknown)

-- While nobody is signed in, the guard of the protected pages lets the user in only by the answer
-- of the server: it sends the user to the login at once if no session is known, and else it asks,
-- and then admits the user whom the answer names, or clears the session and sends the user away.
pub session_guard_lem :
    (r : Reply) (s : Session)
    → is_authenticated s ≡ false
    → ((s.is_ready ≡ false)
        × (session_guard s ≡ record s { decisions = s.decisions ++ sent_to "/login" ∷ [] }))
      ⊎ (((session_guard s).decisions ≡ s.decisions)
          × IsDecided r s (reply (length s.in_flight) r (session_guard s)))
session_guard_lem r s h = elim (Bool-cases s.is_ready) [
  | inl known ↦ inr (rw (guard_asks s h known) (refl, me_answered r s))
  | inr unknown ↦ inl (unknown, guard_refuses s h unknown)
]
