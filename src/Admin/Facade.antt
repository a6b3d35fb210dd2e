-- ===== src/Admin/Facade.antt =====
-- The state that the facades of the contents and of the ads keep, and the operations that they
-- share: frontend/src/app/features/content/content.facade.ts and features/ads/ads.facade.ts. An
-- observable that is subscribed to is a request in flight, and the answer of the server an event.
pub mod Spinner
pub mod Rollback
use kiosk_screen.Prelude.{
  ℕ, ◌+◌, String, Bool, true, false, not, ◌&&◌, Option, none, some, List, [], ◌∷◌, ◌++◌, map, ltb,
  ◌==◌, if◌then◌else◌, is_some, length, get_elem?, JsMap, remove_at, replace_at,
}
use kiosk_screen.Admin.Catalog.{Listed, without, with_flags, reordered}
use kiosk_screen.Admin.Errors.{ApplicationError, ErrorBody, adapt_api_error}

-- A request of the API. A `File` is a number that stands for the object.
pub data Call {ℓ} (P : Type ℓ) : Type ℓ where
  list_items : Call P
  get_item : String → Call P
  create : P → Call P
  update : String → P → Call P
  delete : String → Call P
  upload_file : P → ℕ → Call P
  replace_upload : String → P → ℕ → Call P
  reorder_items : List String → Call P

-- What a failure brings back.
pub data Recovery {ℓ} (A : Type ℓ) : Type ℓ where
  keep_items : Recovery A
  restore_items : List A → Recovery A
  restore_flags : JsMap Bool → Recovery A
  restore_and_refresh : List A → Recovery A

-- A subscription that waits: a refresh, silent or not, the load of an item, or a row of requests
-- that are sent one after the other, of which the first is with the server.
pub data Flight {ℓ κ} (A : Type ℓ) (P : Type κ) : Type (ℓ ⊔ κ) where
  refreshing : Bool → Flight A P
  getting : String → Flight A P
  sending : Recovery A → Call P → List (Call P) → Flight A P

pub data Answer {ℓ} (A : Type ℓ) : Type ℓ where
  listed : List A → Answer A
  got : A → Answer A
  done : Answer A
  failed : Option ErrorBody → Answer A

-- `notified` counts the calls of `displaySync.notifyDisplayStateChanged()`.
pub record Facade {ℓ κ} (A : Type ℓ) (P : Type κ) : Type (ℓ ⊔ κ) where
  pub items : List A
  pub current : Option A
  pub loading : Bool
  pub saving : Bool
  pub error : Option ApplicationError
  pub in_flight : List (Flight A P)
  pub notified : ℕ

module _ {ℓ κ} {A : Type ℓ} {P : Type κ} where
  unfoldable pub empty : Facade A P → Bool
  empty f = not f.loading && length f.items == 0 && not (is_some f.error)

  unfoldable pub ready : Facade A P → Bool
  ready f = not f.loading && ltb 0 (length f.items) && not (is_some f.error)

  abbrev pub launch : Flight A P → Facade A P → Facade A P
  launch flight f = record f { in_flight = f.in_flight ++ flight ∷ [] }

  unfoldable pub refresh : Bool → Facade A P → Facade A P
  refresh silent f =
      if silent && f.saving
      then f
      else launch (refreshing silent)
          (record f { loading = if silent then f.loading else true; error = none })

  unfoldable pub load : String → Facade A P → Facade A P
  load id f = launch (getting id) (record f { loading = true; error = none })

  -- `savingState.set(true)` and `errorState.set(null)`, as every change begins.
  abbrev pub begin_saving : Facade A P → Facade A P
  begin_saving f = record f { saving = true; error = none }

  unfoldable pub finish : Facade A P → Facade A P
  unfolding refresh
  finish f = refresh false (record f { saving = false; notified = f.notified + 1 })

  -- `from(calls).pipe(concatMap(...), toArray(), tap(...))`: of no calls the row is done at once.
  abbrev pub send_all : Recovery A → List (Call P) → Facade A P → Facade A P
  send_all r [] f = finish f
  send_all r (c ∷ cs) f = launch (sending r c cs) f

  abbrev pub send : Recovery A → Call P → Facade A P → Facade A P
  send r c f = launch (sending r c []) f

  unfoldable pub remove : String → Facade A P → Facade A P
  remove id f = send keep_items (delete id) (begin_saving f)

  unfoldable pub clear_error : Facade A P → Facade A P
  clear_error f = record f { error = none }

  unfoldable pub clear_current : Facade A P → Facade A P
  clear_current f = record f { current = none }

  abbrev pub report_failure : Option ErrorBody → Facade A P → Facade A P
  report_failure e f = record f { error = some (adapt_api_error e); saving = false }

  abbrev pub stop_loading : Bool → Facade A P → Facade A P
  stop_loading silent f = record f { loading = if silent then f.loading else false }

module _ {ℓ κ} {A : Type ℓ} {P : Type κ} ⦃l : Listed A⦄ where
  unfoldable pub remove_many : List String → Facade A P → Facade A P
  unfolding finish
  remove_many [] f = f
  remove_many (id ∷ ids) f =
      send_all (restore_items f.items) (map delete (id ∷ ids))
        (record (begin_saving f) { items = without (id ∷ ids) f.items })

  unfoldable pub reorder : List String → Facade A P → Facade A P
  unfolding reordered
  reorder ids f =
      send (restore_and_refresh f.items) (reorder_items ids)
        (record (begin_saving f) { items = reordered ids f.items })

  unfoldable pub recover : Recovery A → Option ErrorBody → Facade A P → Facade A P
  unfolding refresh
  recover keep_items e f = report_failure e f
  recover (restore_items previous) e f = report_failure e (record f { items = previous })
  recover (restore_flags m) e f = report_failure e (record f { items = with_flags m f.items })
  recover (restore_and_refresh previous) e f =
      refresh false (report_failure e (record f { items = previous }))

  -- The row goes on with its next request, or it is done.
  abbrev pub call_done : ℕ → Recovery A → List (Call P) → Facade A P → Facade A P
  call_done i r [] f = finish (record f { in_flight = remove_at i f.in_flight })
  call_done i r (d ∷ ds) f = record f { in_flight = replace_at i (sending r d ds) f.in_flight }

  -- The subscription at place i has its answer. No other kind of answer comes for it.
  abbrev pub answered : ℕ → Flight A P → Answer A → Facade A P → Facade A P
  answered i (refreshing silent) (listed xs) f =
      stop_loading silent (record f { items = xs; in_flight = remove_at i f.in_flight })
  answered i (refreshing silent) (failed e) f =
      stop_loading silent
        (record f { error = some (adapt_api_error e); in_flight = remove_at i f.in_flight })
  answered i (getting id) (got x) f = record f {
    current = some x;
    loading = false;
    in_flight = remove_at i f.in_flight;
  }
  answered i (getting id) (failed e) f = record f {
    error = some (adapt_api_error e);
    loading = false;
    in_flight = remove_at i f.in_flight;
  }
  answered i (sending r c cs) done f = call_done i r cs f
  answered i (sending r c cs) (failed e) f =
      recover r e (record f { in_flight = remove_at i f.in_flight })
  answered _ _ _ f = f

  unfoldable pub answer : ℕ → Answer A → Facade A P → Facade A P
  unfolding finish recover
  answer i a f = elim (get_elem? f.in_flight i) [ none ↦ f | some flight ↦ answered i flight a f ]
