-- ===== src/Admin/RemoteControl/Pausing.antt =====
-- What a command that fails leaves of the pause that the remote control shows.
use kiosk_screen.Prelude.{
  String, ◌≡◌, refl, Bool, true, false, Option, some, arith, length, get_elem?-last, remove_at-last,
}
use kiosk_screen.Admin.Errors.{ErrorBody, adapt_api_error}
use kiosk_screen.Admin.RemoteControl.{
  NavigationCommand, next, previous, pause, resume, jump_to, post_navigation, RemoteFacade,
  remote_failed, is_paused, paused_by, paused_back, navigate, remote_answered,
}

-- The pause that is shown `before` a command and `after` its failure: none after a failed pause,
-- one after a failed resume, and the same for every other command.
abbrev pub FailsTo : NavigationCommand → Bool → Bool → Type 0
FailsTo pause before after = after ≡ false
FailsTo resume before after = after ≡ true
FailsTo _ before after = after ≡ before

paused_back-FailsTo :
    (c : NavigationCommand) (b : Bool) → FailsTo c b (paused_back c (paused_by c b))
paused_back-FailsTo next b = refl
paused_back-FailsTo previous b = refl
paused_back-FailsTo pause b = refl
paused_back-FailsTo resume b = refl
paused_back-FailsTo jump_to b = refl

module _ {I F : Type 0} where
  -- The command is sent and fails, with no other answer in between.
  abbrev pub fails :
      NavigationCommand → Option String → Option ErrorBody → RemoteFacade I F → RemoteFacade I F
  fails command target e f =
      remote_answered (length f.in_flight) (remote_failed e) (navigate command target f)

  -- If a command fails, the failure is shown, nothing is being saved, and the state is as before;
  -- the pause is as before too, but for a failed pause, after which none is shown, and a failed
  -- resume, after which one is.
  pub navigate_failed :
      (command : NavigationCommand) (target : Option String) (e : Option ErrorBody)
      (f : RemoteFacade I F)
      → let g = fails command target e f in
        (g.state ≡ f.state)
        × (g.in_flight ≡ f.in_flight)
        × (g.saving ≡ false)
        × (g.error ≡ some (adapt_api_error e))
        × FailsTo command f.paused g.paused
  unfolding navigate remote_answered
  navigate_failed command target e f =
      rw
        (
          remote_answered,
          get_elem?-last f.in_flight (post_navigation command target),
          remove_at-last f.in_flight (post_navigation command target),
        )
        (refl, refl, refl, refl, paused_back-FailsTo command f.paused)

  -- A pause that fails while a pause is shown takes that pause away from the page.
  pub pause_failed_forgets :
      (target : Option String) (e : Option ErrorBody) (f : RemoteFacade I F)
      → is_paused f ≡ true
      → is_paused (fails pause target e f) ≡ false
  unfolding is_paused
  pause_failed_forgets target e f h =
      let (state, calls, saving, error, paused) = navigate_failed pause target e f in
      ground (arith, paused)
