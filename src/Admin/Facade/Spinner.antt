-- ===== src/Admin/Facade/Spinner.antt =====
-- The spinners of a facade: `saving` and `loading` are true only while an answer is to come.
use kiosk_screen.Prelude.{
  ℕ, ◌+◌, String, ◌≡◌, inl, inr, Bool, true, false, not, ◌&&◌, ◌||◌, Option, some, List, [], ◌∷◌,
  ◌++◌, map, arith, if_both, Option-cases, get_elem?, any, remove_at, any-append, any-remove_at,
  any-replace_at,
}
use kiosk_screen.Admin.Catalog.{Listed, without, reordered}
use kiosk_screen.Admin.Errors.{ErrorBody}
use kiosk_screen.Admin.Facade.{
  Call, delete, reorder_items, Recovery, keep_items, restore_items, restore_flags,
  restore_and_refresh, Flight, refreshing, getting, sending, Answer, listed, got, done, failed,
  Facade, launch, refresh, load, begin_saving, finish, send_all, remove, clear_error, clear_current,
  report_failure, remove_many, reorder, recover, call_done, answered, answer,
}

module _ {ℓ κ} {A : Type ℓ} {P : Type κ} where
  abbrev pub is_sending : Flight A P → Bool
  is_sending (sending r c cs) = true
  is_sending _ = false

  abbrev pub is_loading : Flight A P → Bool
  is_loading (refreshing silent) = not silent
  is_loading (getting id) = true
  is_loading _ = false

  -- A spinner that turns has a request in flight that stops it.
  pub record SpinsFor (saving loading : Bool) (flights : List (Flight A P)) : Type 0 where
    pub saves : saving ≡ true → any is_sending flights ≡ true
    pub loads : loading ≡ true → any is_loading flights ≡ true

  abbrev pub IsSettling : Facade A P → Type 0
  IsSettling f = SpinsFor f.saving f.loading f.in_flight

  -- A new request may turn a spinner on that it stops.
  launched :
      {s s' l l' : Bool} (flights : List (Flight A P)) (new : Flight A P)
      → SpinsFor s l flights
      → (s' ≡ true → (s || is_sending new) ≡ true)
      → (l' ≡ true → (l || is_loading new) ≡ true)
      → SpinsFor s' l' (flights ++ new ∷ [])
  launched {s = s} {l = l} flights new h hs hl = record {
    saves = λ e. ground (arith, h.saves, hs e, any-append is_sending flights (new ∷ []));
    loads = λ e. ground (arith, h.loads, hl e, any-append is_loading flights (new ∷ []));
  }

  -- A request that is over leaves no spinner on that it was to stop.
  landed :
      {s s' l l' : Bool} (flights : List (Flight A P)) (i : ℕ) (flight : Flight A P)
      → get_elem? flights i ≡ some flight
      → SpinsFor s l flights
      → (s' ≡ true → (s && not (is_sending flight)) ≡ true)
      → (l' ≡ true → (l && not (is_loading flight)) ≡ true)
      → SpinsFor s' l' (remove_at i flights)
  landed {s = s} {l = l} flights i flight at h hs hl = record {
    saves = λ e. ground (arith, h.saves, hs e, any-remove_at is_sending i flights flight at);
    loads = λ e. ground (arith, h.loads, hl e, any-remove_at is_loading i flights flight at);
  }

  pub refresh-IsSettling :
      (silent : Bool) (f : Facade A P) → IsSettling f → IsSettling (refresh silent f)
  unfolding refresh
  refresh-IsSettling silent f h =
      if_both IsSettling (silent && f.saving) h
        (launched f.in_flight (refreshing silent) h (λ e. ground arith) (λ e. ground arith))

  pub load-IsSettling : (id : String) (f : Facade A P) → IsSettling f → IsSettling (load id f)
  unfolding load
  load-IsSettling id f h =
      launched f.in_flight (getting id) h (λ e. ground arith) (λ e. ground arith)

  -- However the list is changed meanwhile, a change that is sent settles.
  pub send-IsSettling :
      (r : Recovery A) (c : Call P) (cs : List (Call P)) (items : List A) (f : Facade A P)
      → IsSettling f
      → IsSettling (launch (sending r c cs) (record (begin_saving f) { items = items }))
  send-IsSettling r c cs items f h =
      launched f.in_flight (sending r c cs) h (λ e. ground arith) (λ e. ground arith)

  pub finish-IsSettling :
      (f : Facade A P) → SpinsFor false f.loading f.in_flight → IsSettling (finish f)
  unfolding finish
  finish-IsSettling f h =
      refresh-IsSettling false (record f { saving = false; notified = f.notified + 1 })
        (record { saves = h.saves; loads = h.loads })

  pub send_all-IsSettling :
      (r : Recovery A) (cs : List (Call P)) (items : List A) (f : Facade A P)
      → IsSettling f
      → IsSettling (send_all r cs (record (begin_saving f) { items = items }))
  send_all-IsSettling r [] items f h =
      finish-IsSettling (record (begin_saving f) { items = items })
        (record { saves = λ on. absurd (ground arith); loads = h.loads })
  send_all-IsSettling r (c ∷ cs) items f h = send-IsSettling r c cs items f h

  pub clear_error-IsSettling : (f : Facade A P) → IsSettling f → IsSettling (clear_error f)
  unfolding clear_error
  clear_error-IsSettling f h = h

  pub clear_current-IsSettling : (f : Facade A P) → IsSettling f → IsSettling (clear_current f)
  unfolding clear_current
  clear_current-IsSettling f h = h

  pub remove-IsSettling : (id : String) (f : Facade A P) → IsSettling f → IsSettling (remove id f)
  unfolding remove
  remove-IsSettling id f h = send-IsSettling keep_items (delete id) [] f.items f h

module _ {ℓ κ} {A : Type ℓ} {P : Type κ} ⦃l : Listed A⦄ where
  pub remove_many-IsSettling :
      (ids : List String) (f : Facade A P) → IsSettling f → IsSettling (remove_many ids f)
  unfolding remove_many
  remove_many-IsSettling [] f h = h
  remove_many-IsSettling (id ∷ ids) f h =
      send_all-IsSettling (restore_items f.items) (map delete (id ∷ ids))
        (without (id ∷ ids) f.items) f h

  pub reorder-IsSettling :
      (ids : List String) (f : Facade A P) → IsSettling f → IsSettling (reorder ids f)
  unfolding reorder
  reorder-IsSettling ids f h =
      send-IsSettling (restore_and_refresh f.items) (reorder_items ids) [] (reordered ids f.items) f
        h

  recover-IsSettling :
      (r : Recovery A) (e : Option ErrorBody) (f : Facade A P)
      → SpinsFor false f.loading f.in_flight
      → IsSettling (recover r e f)
  unfolding recover
  recover-IsSettling keep_items e f h = record { saves = h.saves; loads = h.loads }
  recover-IsSettling (restore_items previous) e f h = record { saves = h.saves; loads = h.loads }
  recover-IsSettling (restore_flags m) e f h = record { saves = h.saves; loads = h.loads }
  recover-IsSettling (restore_and_refresh previous) e f h =
      refresh-IsSettling false (report_failure e (record f { items = previous }))
        (record { saves = h.saves; loads = h.loads })

  call_done-IsSettling :
      (i : ℕ) (r : Recovery A) (c : Call P) (cs : List (Call P)) (f : Facade A P)
      → get_elem? f.in_flight i ≡ some (sending r c cs)
      → IsSettling f
      → IsSettling (call_done i r cs f)
  call_done-IsSettling i r c [] f at h =
      finish-IsSettling (record f { in_flight = remove_at i f.in_flight })
        (landed f.in_flight i (sending r c []) at h (λ e. ground arith) (λ e. ground arith))
  call_done-IsSettling i r c (d ∷ ds) f at h = record {
    saves = λ e. ground (
      arith,
      h.saves,
      any-replace_at is_sending i (sending r d ds) f.in_flight (sending r c (d ∷ ds)) at,
    );
    loads = λ e. ground (
      arith,
      h.loads,
      any-replace_at is_loading i (sending r d ds) f.in_flight (sending r c (d ∷ ds)) at,
    );
  }

  answered-IsSettling :
      (i : ℕ) (flight : Flight A P) (a : Answer A) (f : Facade A P)
      → get_elem? f.in_flight i ≡ some flight
      → IsSettling f
      → IsSettling (answered i flight a f)
  answered-IsSettling i (refreshing silent) (listed xs) f at h =
      landed f.in_flight i (refreshing silent) at h (λ e. ground arith) (λ e. ground arith)
  answered-IsSettling i (refreshing silent) (failed x) f at h =
      landed f.in_flight i (refreshing silent) at h (λ e. ground arith) (λ e. ground arith)
  answered-IsSettling i (refreshing silent) (got x) f at h = h
  answered-IsSettling i (refreshing silent) done f at h = h
  answered-IsSettling i (getting id) (got x) f at h =
      landed f.in_flight i (getting id) at h (λ e. ground arith) (λ e. ground arith)
  answered-IsSettling i (getting id) (failed x) f at h =
      landed f.in_flight i (getting id) at h (λ e. ground arith) (λ e. ground arith)
  answered-IsSettling i (getting id) (listed xs) f at h = h
  answered-IsSettling i (getting id) done f at h = h
  answered-IsSettling i (sending r c cs) done f at h = call_done-IsSettling i r c cs f at h
  answered-IsSettling i (sending r c cs) (failed x) f at h =
      recover-IsSettling r x (record f { in_flight = remove_at i f.in_flight })
        (landed f.in_flight i (sending r c cs) at h (λ e. ground arith) (λ e. ground arith))
  answered-IsSettling i (sending r c cs) (listed xs) f at h = h
  answered-IsSettling i (sending r c cs) (got x) f at h = h

  pub answer-IsSettling :
      (i : ℕ) (a : Answer A) (f : Facade A P) → IsSettling f → IsSettling (answer i a f)
  unfolding answer
  answer-IsSettling i a f h = elim (Option-cases (get_elem? f.in_flight i)) [
    | inl e ↦ rw (answer, e) h
    | inr (flight, e) ↦ rw (answer, e) (answered-IsSettling i flight a f e h)
  ]
