-- ===== src/Display/MediaCache.antt =====
-- frontend/src/app/display/display-media-cache.service.ts. A request is an object with an identity, `id`; its
-- two fields that change are the lists `required` and `active` of the ids for which they hold. A run
-- of `runPreparation` that awaits its download stands in `in_flight`, and `finish_preparation`
-- continues it with the answer.
pub mod Operations
pub mod Scheduling
pub mod Requests
pub mod Runs
pub mod Answers
pub mod Sharing
pub mod Served
mod Tests
use kiosk_screen.Prelude.{
  ℕ, ◌+◌, ◌-◌, String, Bool, true, false, not, ◌&&◌, ◌||◌, Option, none, some, List, [], ◌∷◌, ◌++◌,
  ltb, ◌==◌, if◌then◌else◌, or_default, non_empty, any, JsMap, map_get, map_set, map_delete, JsSet,
  set_has,
}

abbrev pub max_top_retention : ℕ
max_top_retention = 2

abbrev pub max_concurrent_downloads : ℕ
max_concurrent_downloads = 3

abbrev pub retry_cooldown_ms : ℕ
retry_cooldown_ms = 15000

pub data MediaCacheReadyState : Type 0 where
  idle downloading ready failed : MediaCacheReadyState

abbrev pub is_ready : Option MediaCacheReadyState → Bool
is_ready (some ready) = true
is_ready _ = false

pub record PreparationRequest : Type 0 where
  pub id : ℕ
  pub url : String
  pub content_type : String
  pub generation : ℕ

-- What a promise comes to: a Blob URL, or an error's message.
pub data Settled : Type 0 where
  resolved rejected : String → Settled

-- What `ensureReady` returns: a promise that is settled, or that of a request.
pub data Prepared : Type 0 where
  now_settled : Settled → Prepared
  when_done : ℕ → Prepared

-- `settled` and `revoked` record the calls of `resolve`, `reject` and `URL.revokeObjectURL`.
pub record MediaCache : Type 0 where
  pub blob_by_url : JsMap String
  pub pending_by_url : JsMap PreparationRequest
  pub failure_at_by_url : JsMap ℕ
  pub top_retained : JsSet
  pub ad_retained : JsSet
  pub ready_state_by_url : JsMap MediaCacheReadyState
  pub preparation_queue : List PreparationRequest
  pub active_downloads : ℕ
  pub lifecycle_generation : ℕ
  pub revision : ℕ
  pub required : List ℕ
  pub active : List ℕ
  pub in_flight : List PreparationRequest
  pub next_id : ℕ
  pub settled : List (ℕ × Settled)
  pub revoked : List String

abbrev pub empty_cache : MediaCache
empty_cache = record {
  blob_by_url = [];
  pending_by_url = [];
  failure_at_by_url = [];
  top_retained = [];
  ad_retained = [];
  ready_state_by_url = [];
  preparation_queue = [];
  active_downloads = 0;
  lifecycle_generation = 0;
  revision = 0;
  required = [];
  active = [];
  in_flight = [];
  next_id = 0;
  settled = [];
  revoked = [];
}

abbrev pub has_nat : List ℕ → ℕ → Bool
has_nat ids id = any (λ (i : ℕ). i == id) ids

-- `url: string | null | undefined`
unfoldable pub get_ready_state : Option String → MediaCache → MediaCacheReadyState
get_ready_state none c = idle
get_ready_state (some url) c =
    if non_empty url then or_default (map_get c.ready_state_by_url url) idle else idle

unfoldable pub get_display_url : Option String → MediaCache → String
get_display_url none c = ""
get_display_url (some url) c =
    if not (non_empty url) || not (is_ready (map_get c.ready_state_by_url url))
    then ""
    else or_default (map_get c.blob_by_url url) ""

abbrev pub is_retained : String → MediaCache → Bool
is_retained url c = set_has c.top_retained url || set_has c.ad_retained url

abbrev pub settle_request : ℕ → Settled → MediaCache → MediaCache
settle_request id s c = record c { settled = c.settled ++ (id, s) ∷ [] }

abbrev pub revoke : String → MediaCache → MediaCache
revoke blob_url c = record c { revoked = c.revoked ++ blob_url ∷ [] }

abbrev pub is_pending : PreparationRequest → MediaCache → Bool
is_pending r c = elim (map_get c.pending_by_url r.url) [ none ↦ false | some p ↦ p.id == r.id ]

abbrev pub activate : PreparationRequest → MediaCache → MediaCache
activate r c = record c {
  active = r.id ∷ c.active;
  active_downloads = c.active_downloads + 1;
  in_flight = c.in_flight ++ r ∷ [];
}

-- The loop on the queue.
unfoldable pub drain : List PreparationRequest → MediaCache → MediaCache
drain [] c = record c { preparation_queue = [] }
drain (r ∷ rs) c =
    let rest = drain rs (if is_pending r c then activate r c else c) in
    if ltb c.active_downloads max_concurrent_downloads
    then rest
    else record c { preparation_queue = r ∷ rs }

unfoldable pub drain_preparation_queue : MediaCache → MediaCache
drain_preparation_queue c = drain c.preparation_queue c

abbrev pub with_request : String → String → Bool → MediaCache → MediaCache
with_request url content_type required c =
    let r : PreparationRequest = record {
      id = c.next_id;
      url = url;
      content_type = content_type;
      generation = c.lifecycle_generation;
    } in
    record c {
      next_id = c.next_id + 1;
      required = if required then c.next_id ∷ c.required else c.required;
      pending_by_url = map_set c.pending_by_url url r;
      ready_state_by_url = map_set c.ready_state_by_url url downloading;
      preparation_queue = c.preparation_queue ++ r ∷ [];
    }

abbrev pub require : Bool → ℕ → MediaCache → MediaCache
require needed id c = if needed then record c { required = id ∷ c.required } else c

-- From `const existing = this.pendingByUrl.get(url)` on.
unfoldable pub join_or_request : String → String → Bool → MediaCache → MediaCache × Prepared
join_or_request url content_type required c = elim (map_get c.pending_by_url url) [
  | some existing ↦ (require required existing.id c, when_done existing.id)
  | none ↦
      if is_ready (map_get c.ready_state_by_url url) && not (is_retained url c)
      then (c, now_settled (resolved ""))
      else (drain_preparation_queue (with_request url content_type required c), when_done c.next_id)
]

abbrev pub forget_failure : String → MediaCache → MediaCache
forget_failure url c = record c {
  failure_at_by_url = map_delete c.failure_at_by_url url;
  ready_state_by_url = map_delete c.ready_state_by_url url;
}

unfoldable pub retry_or_request : ℕ → String → String → Bool → MediaCache → MediaCache × Prepared
retry_or_request now url content_type required c = elim (map_get c.failure_at_by_url url) [
  | none ↦ join_or_request url content_type required c
  | some failed_at ↦
      if ltb (now - failed_at) retry_cooldown_ms
      then (c, now_settled (rejected "media_retry_cooldown"))
      else join_or_request url content_type required (forget_failure url c)
]

abbrev pub cached_blob : String → MediaCache → Option String
cached_blob url c = elim (map_get c.blob_by_url url) [
  | none ↦ none
  | some blob ↦ if non_empty blob then some blob else none
]

unfoldable pub queue_preparation : ℕ → String → String → Bool → MediaCache → MediaCache × Prepared
queue_preparation now url content_type required c = elim (cached_blob url c) [
  | some blob ↦ (c, now_settled (resolved blob))
  | none ↦ retry_or_request now url content_type required c
]

unfoldable pub ensure_ready : ℕ → String → String → MediaCache → MediaCache × Prepared
ensure_ready now url content_type c = queue_preparation now url content_type true c
