-- ===== src/Admin/RemoteControl/Settling.antt =====
-- Runs of the remote control: commands and answers in any order.
use kiosk_screen.Prelude.{
  ℕ, String, ◌≡◌, inl, inr, Bool, true, false, not, ◌&&◌, ◌||◌, Option, none, some, List, [], ◌∷◌,
  ◌++◌, arith, if_each, Option-cases, get_elem?, any, remove_at, any-append, any-remove_at,
}
use kiosk_screen.Display.Item.{ContentMode}
use kiosk_screen.Admin.RemoteControl.{
  NavigationCommand, RemoteCall, get_state_and_options, post_navigation, put_state, RemoteFacade,
  RemoteAnswer, state_and_options, new_state, remote_failed, refresh_remote, ads_visible_of,
  fullscreen_of, update_remote, unpaused, set_loop_mode, set_iframe_mode, set_fixed_mode,
  set_ads_visible, set_fullscreen_requested, navigate, call_answered, answers, remote_answered,
}

abbrev pub is_change : RemoteCall → Bool
is_change get_state_and_options = false
is_change _ = true

-- A spinner that turns has a call in flight that stops it.
pub record Spins (saving loading : Bool) (calls : List RemoteCall) : Type 0 where
  pub saves : saving ≡ true → any is_change calls ≡ true
  pub loads : loading ≡ true → any (λ c. not (is_change c)) calls ≡ true

sent-Spins :
    {s s' l l' : Bool} (calls : List RemoteCall) (c : RemoteCall)
    → Spins s l calls
    → (s' ≡ true → (s || is_change c) ≡ true)
    → (l' ≡ true → (l || not (is_change c)) ≡ true)
    → Spins s' l' (calls ++ c ∷ [])
sent-Spins calls c h hs hl = record {
  saves = λ e. ground (arith, h.saves, hs e, any-append is_change calls (c ∷ []));
  loads = λ e. ground (arith, h.loads, hl e, any-append (λ d. not (is_change d)) calls (c ∷ []));
}

answered-Spins :
    {s s' l l' : Bool} (calls : List RemoteCall) (i : ℕ) (c : RemoteCall)
    → get_elem? calls i ≡ some c
    → Spins s l calls
    → (s' ≡ true → (s && not (is_change c)) ≡ true)
    → (l' ≡ true → (l && is_change c) ≡ true)
    → Spins s' l' (remove_at i calls)
answered-Spins calls i c at h hs hl = record {
  saves = λ e. ground (arith, h.saves, hs e, any-remove_at is_change i calls c at);
  loads = λ e. ground (arith, h.loads, hl e, any-remove_at (λ d. not (is_change d)) i calls c at);
}

pub data RemoteEvent (I F : Type 0) : Type 0 where
  refreshed loop_set : RemoteEvent I F
  iframe_set fixed_set : String → RemoteEvent I F
  ads_set fullscreen_set : Bool → RemoteEvent I F
  navigated : NavigationCommand → Option String → RemoteEvent I F
  remote_answer : ℕ → RemoteAnswer I F → RemoteEvent I F

module _ {I F : Type 0} where
  abbrev pub IsSpinning : RemoteFacade I F → Type 0
  IsSpinning f = Spins f.saving f.loading f.in_flight

  unfoldable pub remote_step : RemoteFacade I F → RemoteEvent I F → RemoteFacade I F
  remote_step f refreshed = refresh_remote f
  remote_step f loop_set = set_loop_mode f
  remote_step f (iframe_set id) = set_iframe_mode id f
  remote_step f (fixed_set id) = set_fixed_mode id f
  remote_step f (ads_set ads) = set_ads_visible ads f
  remote_step f (fullscreen_set fullscreen) = set_fullscreen_requested fullscreen f
  remote_step f (navigated command target) = navigate command target f
  remote_step f (remote_answer i a) = remote_answered i a f

  abbrev pub remote_run : RemoteFacade I F → List (RemoteEvent I F) → RemoteFacade I F
  remote_run f [] = f
  remote_run f (e ∷ es) = remote_run (remote_step f e) es

  update_remote-IsSpinning :
      (mode : ContentMode) (iframe_id fixed_id : Option String) (ads fullscreen : Option Bool)
      (f : RemoteFacade I F)
      → IsSpinning f
      → IsSpinning (update_remote mode iframe_id fixed_id ads fullscreen f)
  unfolding update_remote
  update_remote-IsSpinning mode iframe_id fixed_id ads fullscreen f h =
      sent-Spins f.in_flight (put_state _) h (λ e. ground arith) (λ e. ground arith)

  call_answered-IsSpinning :
      (i : ℕ) (c : RemoteCall) (a : RemoteAnswer I F) (f : RemoteFacade I F)
      → get_elem? f.in_flight i ≡ some c
      → answers c a ≡ true
      → IsSpinning f
      → IsSpinning (call_answered c a (record f { in_flight = remove_at i f.in_flight }))
  call_answered-IsSpinning i get_state_and_options (state_and_options s o) f at ok h =
      answered-Spins f.in_flight i get_state_and_options at h (λ e. ground arith)
        (λ e. ground arith)
  call_answered-IsSpinning i get_state_and_options (new_state s) f at ok h = absurd (ground arith)
  call_answered-IsSpinning i get_state_and_options (remote_failed x) f at ok h =
      answered-Spins f.in_flight i get_state_and_options at h (λ e. ground arith)
        (λ e. ground arith)
  call_answered-IsSpinning i (post_navigation c t) (state_and_options s o) f at ok h =
      absurd (ground arith)
  call_answered-IsSpinning i (post_navigation c t) (new_state s) f at ok h =
      answered-Spins f.in_flight i (post_navigation c t) at h (λ e. ground arith)
        (λ e. ground arith)
  call_answered-IsSpinning i (post_navigation c t) (remote_failed x) f at ok h =
      answered-Spins f.in_flight i (post_navigation c t) at h (λ e. ground arith)
        (λ e. ground arith)
  call_answered-IsSpinning i (put_state p) (state_and_options s o) f at ok h = absurd (ground arith)
  call_answered-IsSpinning i (put_state p) (new_state s) f at ok h =
      answered-Spins f.in_flight i (put_state p) at h (λ e. ground arith) (λ e. ground arith)
  call_answered-IsSpinning i (put_state p) (remote_failed x) f at ok h =
      answered-Spins f.in_flight i (put_state p) at h (λ e. ground arith) (λ e. ground arith)

  remote_answered-IsSpinning :
      (i : ℕ) (a : RemoteAnswer I F) (f : RemoteFacade I F)
      → IsSpinning f
      → IsSpinning (remote_answered i a f)
  unfolding remote_answered
  remote_answered-IsSpinning i a f h = elim (Option-cases (get_elem? f.in_flight i)) [
    | inl e ↦ rw (remote_answered, e) h
    | inr (c, e) ↦
        rw (remote_answered, e)
          (if_each IsSpinning (answers c a) (λ ok. call_answered-IsSpinning i c a f e ok h)
            (λ odd. h))
  ]

  remote_step-IsSpinning :
      (f : RemoteFacade I F) (e : RemoteEvent I F) → IsSpinning f → IsSpinning (remote_step f e)
  unfolding remote_step refresh_remote set_loop_mode set_iframe_mode set_fixed_mode set_ads_visible
      set_fullscreen_requested navigate
  remote_step-IsSpinning f refreshed h =
      sent-Spins f.in_flight get_state_and_options h (λ e. ground arith) (λ e. ground arith)
  remote_step-IsSpinning f loop_set h = update_remote-IsSpinning _ _ _ none none (unpaused f) h
  remote_step-IsSpinning f (iframe_set id) h =
      update_remote-IsSpinning _ _ _ none none (unpaused f) h
  remote_step-IsSpinning f (fixed_set id) h =
      update_remote-IsSpinning _ _ _ none none (unpaused f) h
  remote_step-IsSpinning f (ads_set ads) h =
      update_remote-IsSpinning _ _ _ (some ads) (some (fullscreen_of f.state)) f h
  remote_step-IsSpinning f (fullscreen_set fullscreen) h =
      update_remote-IsSpinning _ _ _ (some (ads_visible_of f.state)) (some fullscreen) f h
  remote_step-IsSpinning f (navigated command target) h =
      sent-Spins f.in_flight (post_navigation command target) h (λ e. ground arith)
        (λ e. ground arith)
  remote_step-IsSpinning f (remote_answer i a) h = remote_answered-IsSpinning i a f h

  remote_run_from :
      (es : List (RemoteEvent I F)) (f : RemoteFacade I F)
      → IsSpinning f
      → IsSpinning (remote_run f es)
  remote_run_from [] f h = h
  remote_run_from (e ∷ es) f h = remote_run_from es (remote_step f e) (remote_step-IsSpinning f e h)

  abbrev pub initial_remote : RemoteFacade I F
  initial_remote = record {
    state = none;
    iframe_options = [];
    fixed_content_options = [];
    loading = false;
    saving = false;
    error = none;
    paused = false;
    in_flight = [];
    notified = 0;
  }

  -- After any sequence of commands and answers, in any order, the remote control shows that it
  -- saves only while a change is unanswered, and that it loads only while a refresh is.
  pub remote_run-IsSpinning :
      (es : List (RemoteEvent I F)) → IsSpinning (remote_run initial_remote es)
  remote_run-IsSpinning es =
      remote_run_from es initial_remote
        (record { saves = λ on. absurd (ground arith); loads = λ on. absurd (ground arith) })
