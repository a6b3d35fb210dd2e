-- ===== src/Session/Tests.antt =====
-- A sign-in that is remembered, a reload and an expired session.
use kiosk_screen.Prelude.{
  ◌≡◌, refl, ◌⊎◌, true, false, Option, none, some, List, [], ◌∷◌, codes, includes,
}
use kiosk_screen.Session.{
  AuthenticatedUser, StoredFlags, Session, boot, persist, clear_session, admitted, sent_to, replied,
  auth_expired, is_authenticated, session_guard, reply, read_auth_flag, login,
}
use kiosk_screen.Session.Runs.{
  SessionEvent, login_sent, session_guard_ran, reply_came, request_failed, session_step,
  session_run, IsMirrored, session_run-IsMirrored, IsDecided, session_guard_lem,
}

abbrev ana : AuthenticatedUser
ana = record { id = "1"; email = "ana@bar"; display_name = "Ana"; roles = "admin" ∷ [] }

abbrev fresh_storage : Option StoredFlags
fresh_storage = some (record { kiosk_authenticated = none; kiosk_remember = none })

abbrev evening : List SessionEvent
evening =
    login_sent true
    ∷ reply_came 0 (replied ana)
    ∷ session_guard_ran
    ∷ request_failed "/api/content" (some 401)
    ∷ []

session_run-evening :
    let s = session_run (boot fresh_storage) evening in
    (s.decisions ≡ admitted ∷ []) × (s.navigations ≡ "/login" ∷ []) × (s.is_ready ≡ false)
unfolding session_step boot reply login persist session_guard is_authenticated auth_expired
    clear_session read_auth_flag codes includes
session_run-evening = (refl, refl, refl)

session_run-IsMirrored_example : IsMirrored (session_run (boot fresh_storage) evening)
session_run-IsMirrored_example = session_run-IsMirrored fresh_storage evening

abbrev signed_in : Session
signed_in = record {
  user = some ana;
  is_ready = true;
  remember = false;
  storage = fresh_storage;
  in_flight = [];
  decisions = [];
  navigations = [];
}

abbrev reloaded : Session
reloaded = record signed_in { user = none }

session_guard_lem_example :
    ((reloaded.is_ready ≡ false)
      × (session_guard reloaded ≡ record reloaded { decisions = sent_to "/login" ∷ [] }))
    ⊎ (((session_guard reloaded).decisions ≡ [])
        × IsDecided (replied ana) reloaded (reply 0 (replied ana) (session_guard reloaded)))
unfolding is_authenticated
session_guard_lem_example = session_guard_lem (replied ana) reloaded refl
