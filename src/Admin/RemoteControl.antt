-- ===== src/Admin/RemoteControl.antt =====
-- The remote control: frontend/src/app/features/remote-control/remote-control.facade.ts, with the data
-- of remote-control.models.ts. `I` is the type of the iframes and `F` that of the contents that can
-- be pinned, which the facade only passes on.
pub mod Settling
pub mod Pausing
mod Tests
use kiosk_screen.Prelude.{
  ℕ, ◌+◌, String, Bool, true, false, not, ◌&&◌, Option, none, some, List, [], ◌∷◌, ◌++◌,
  if◌then◌else◌, is_some, or_default, get_elem?, remove_at,
}
use kiosk_screen.Display.Item.{ContentMode, loop, iframe, fixed, is_loop}
use kiosk_screen.Admin.Errors.{ApplicationError, ErrorBody, adapt_api_error}

pub data NavigationCommand : Type 0 where
  next previous pause resume jump_to : NavigationCommand

pub record RemoteState (I : Type 0) : Type 0 where
  pub content_mode : ContentMode
  pub selected_iframe_id : Option String
  pub selected_fixed_content_id : Option String
  pub selected_iframe : Option I
  pub ads_visible : Bool
  pub fullscreen_requested : Bool
  pub navigation_command : Option NavigationCommand
  pub navigation_command_id : Option String
  pub jump_to_content_id : Option String
  pub updated_at : String
  pub display_session_active : Option Bool

-- The payload of `updateState`; the id of the pinned content is left out where it is none.
pub record RemoteUpdate : Type 0 where
  pub content_mode : ContentMode
  pub selected_iframe_id : Option String
  pub selected_fixed_content_id : Option String
  pub ads_visible : Bool
  pub fullscreen_requested : Bool

pub data RemoteCall : Type 0 where
  get_state_and_options : RemoteCall
  post_navigation : NavigationCommand → Option String → RemoteCall
  put_state : RemoteUpdate → RemoteCall

pub record RemoteOptions (I F : Type 0) : Type 0 where
  pub items : List I
  pub fixed_eligible_contents : Option (List F)

-- `notified` counts the calls of `displaySync.notifyRemoteControlChanged()`.
pub record RemoteFacade (I F : Type 0) : Type 0 where
  pub state : Option (RemoteState I)
  pub iframe_options : List I
  pub fixed_content_options : List F
  pub loading : Bool
  pub saving : Bool
  pub error : Option ApplicationError
  pub paused : Bool
  pub in_flight : List RemoteCall
  pub notified : ℕ

pub data RemoteAnswer (I F : Type 0) : Type 0 where
  state_and_options : RemoteState I → RemoteOptions I F → RemoteAnswer I F
  new_state : RemoteState I → RemoteAnswer I F
  remote_failed : Option ErrorBody → RemoteAnswer I F

-- The pause that the page shows before the server has answered.
abbrev pub paused_by : NavigationCommand → Bool → Bool
paused_by pause b = true
paused_by resume b = false
paused_by _ b = b

-- The pause that it shows once the command has failed.
abbrev pub paused_back : NavigationCommand → Bool → Bool
paused_back pause b = false
paused_back resume b = true
paused_back _ b = b

module _ {I : Type 0} where
  -- `this.stateSignal()?.contentMode === 'loop'`
  abbrev pub in_loop : Option (RemoteState I) → Bool
  in_loop none = false
  in_loop (some s) = is_loop s.content_mode

  -- `adsVisible ?? current?.adsVisible ?? true`
  abbrev pub ads_visible_of : Option (RemoteState I) → Bool
  ads_visible_of none = true
  ads_visible_of (some s) = s.ads_visible

  abbrev pub fullscreen_of : Option (RemoteState I) → Bool
  fullscreen_of none = false
  fullscreen_of (some s) = s.fullscreen_requested

  abbrev pub mode_of : Option (RemoteState I) → ContentMode
  mode_of none = loop
  mode_of (some s) = s.content_mode

  abbrev pub iframe_of : Option (RemoteState I) → Option String
  iframe_of none = none
  iframe_of (some s) = s.selected_iframe_id

  abbrev pub fixed_of : Option (RemoteState I) → Option String
  fixed_of none = none
  fixed_of (some s) = s.selected_fixed_content_id

module _ {I F : Type 0} where
  unfoldable pub is_paused : RemoteFacade I F → Bool
  is_paused f = f.paused && in_loop f.state

  unfoldable pub remote_ready : RemoteFacade I F → Bool
  remote_ready f = not f.loading && is_some f.state

  abbrev pub send_call : RemoteCall → RemoteFacade I F → RemoteFacade I F
  send_call c f = record f { in_flight = f.in_flight ++ c ∷ [] }

  unfoldable pub refresh_remote : RemoteFacade I F → RemoteFacade I F
  refresh_remote f = send_call get_state_and_options (record f { loading = true; error = none })

  unfoldable pub update_remote :
      ContentMode
      → Option String
      → Option String
      → Option Bool
      → Option Bool
      → RemoteFacade I F
      → RemoteFacade I F
  update_remote mode iframe_id fixed_id ads fullscreen f =
      send_call
        (put_state (record {
          content_mode = mode;
          selected_iframe_id = iframe_id;
          selected_fixed_content_id = fixed_id;
          ads_visible = or_default ads (ads_visible_of f.state);
          fullscreen_requested = or_default fullscreen (fullscreen_of f.state);
        }))
        (record f { saving = true; error = none; paused = is_loop mode && f.paused })

  abbrev pub unpaused : RemoteFacade I F → RemoteFacade I F
  unpaused f = record f { paused = false }

  unfoldable pub set_loop_mode : RemoteFacade I F → RemoteFacade I F
  unfolding update_remote
  set_loop_mode f = update_remote loop none none none none (unpaused f)

  unfoldable pub set_iframe_mode : String → RemoteFacade I F → RemoteFacade I F
  unfolding update_remote
  set_iframe_mode id f = update_remote iframe (some id) none none none (unpaused f)

  unfoldable pub set_fixed_mode : String → RemoteFacade I F → RemoteFacade I F
  unfolding update_remote
  set_fixed_mode id f = update_remote fixed none (some id) none none (unpaused f)

  unfoldable pub set_ads_visible : Bool → RemoteFacade I F → RemoteFacade I F
  unfolding update_remote
  set_ads_visible ads f =
      update_remote (mode_of f.state) (iframe_of f.state) (fixed_of f.state) (some ads)
        (some (fullscreen_of f.state)) f

  unfoldable pub set_fullscreen_requested : Bool → RemoteFacade I F → RemoteFacade I F
  unfolding update_remote
  set_fullscreen_requested fullscreen f =
      update_remote (mode_of f.state) (iframe_of f.state) (fixed_of f.state)
        (some (ads_visible_of f.state)) (some fullscreen) f

  unfoldable pub navigate : NavigationCommand → Option String → RemoteFacade I F → RemoteFacade I F
  navigate command target f =
      send_call (post_navigation command target)
        (record f { saving = true; error = none; paused = paused_by command f.paused })

  abbrev pub accept_state : RemoteState I → RemoteFacade I F → RemoteFacade I F
  accept_state s f = record f { state = some s; notified = f.notified + 1; saving = false }

  abbrev pub save_failed : Option ErrorBody → RemoteFacade I F → RemoteFacade I F
  save_failed e f = record f { error = some (adapt_api_error e); saving = false }

  -- The answer for a call that is no longer in flight. No other kind of answer comes for it.
  abbrev pub call_answered : RemoteCall → RemoteAnswer I F → RemoteFacade I F → RemoteFacade I F
  call_answered get_state_and_options (state_and_options s o) f = record f {
    state = some s;
    iframe_options = o.items;
    fixed_content_options = or_default o.fixed_eligible_contents [];
    paused = is_loop s.content_mode && f.paused;
    loading = false;
  }
  call_answered get_state_and_options (remote_failed e) f = record f {
    error = some (adapt_api_error e);
    loading = false;
  }
  call_answered (post_navigation command target) (new_state s) f = accept_state s f
  call_answered (post_navigation command target) (remote_failed e) f =
      save_failed e (record f { paused = paused_back command f.paused })
  call_answered (put_state payload) (new_state s) f = accept_state s f
  call_answered (put_state payload) (remote_failed e) f = save_failed e f
  call_answered _ _ f = f

  abbrev pub answers : RemoteCall → RemoteAnswer I F → Bool
  answers c (remote_failed e) = true
  answers get_state_and_options (state_and_options s o) = true
  answers (post_navigation command target) (new_state s) = true
  answers (put_state payload) (new_state s) = true
  answers _ _ = false

  -- The i-th call in flight is answered.
  unfoldable pub remote_answered : ℕ → RemoteAnswer I F → RemoteFacade I F → RemoteFacade I F
  remote_answered i a f = elim (get_elem? f.in_flight i) [
    | none ↦ f
    | some c ↦
        if answers c a
        then call_answered c a (record f { in_flight = remove_at i f.in_flight })
        else f
  ]
