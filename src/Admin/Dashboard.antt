-- ===== src/Admin/Dashboard.antt =====
-- The dashboard of the administration: frontend/src/app/features/dashboard/dashboard.facade.ts, with the
-- data of dashboard.models.ts and the routes of features/readiness/readiness-routes.ts. A message is the
-- list of its UTF-16 units, which the code counts and cuts.
pub mod Routes
pub mod Fold
pub mod Degraded
pub mod Queue
mod Tests
use kiosk_screen.Prelude.{
  ℕ, String, Bool, false, not, ◌&&◌, Option, none, some, List, map, ltb, if◌then◌else◌, str_eq,
  is_some, or_default, non_empty, truthy, length, filter, find, sort_by,
}
use kiosk_screen.Display.Item.{ContentMode, is_fixed_mode}
use kiosk_screen.Admin.Content.{ContentItem}
use kiosk_screen.Admin.RemoteControl.{RemoteState}
use kiosk_screen.Admin.Dashboard.Routes.{Message, resolve_readiness_route}

pub record ReadinessAlert : Type 0 where
  pub message : Message
  pub resolve_route : String

pub record ReadinessSlice : Type 0 where
  pub ready : Bool
  pub blockers : List ReadinessAlert
  pub warnings : List ReadinessAlert

pub record LiveStatusSlice : Type 0 where
  pub display_session_active : Bool
  pub content_mode : ContentMode
  pub ads_visible : Bool
  pub updated_at : String
  pub pinned_content_id : Option String
  pub pinned_content_title : Option String
  pub pinned_content_unresolved : Bool

-- `LiveKiosk`, and `ConnectedKiosk` with the same fields.
pub record ConnectedKiosk : Type 0 where
  pub kiosk_id : String
  pub display_label : Option String

pub data ContentQueueKind : Type 0 where
  regular recurring fixed_eligible : ContentQueueKind

pub record ContentQueueEntry : Type 0 where
  pub id : String
  pub title : String
  pub display_order : ℕ
  pub kind : ContentQueueKind
  pub recurring_every_x_iterations : Option ℕ
  pub is_pinned_now : Bool

pub record ContentQueueSlice : Type 0 where
  pub entries : List ContentQueueEntry
  pub active_content_count : ℕ

pub data ActivitySeverity : Type 0 where
  info warning error : ActivitySeverity

pub record DisplayEvent : Type 0 where
  pub id : String
  pub event_type : String
  pub severity : Message
  pub message : Message
  pub created_at : String

pub record ActivityFeedItem : Type 0 where
  pub id : String
  pub event_type : String
  pub severity : ActivitySeverity
  pub message : Message
  pub created_at : String

pub data Priority : Type 0 where
  primary secondary : Priority

pub record ContextualAction : Type 0 where
  pub label : Message
  pub route : String
  pub icon : String
  pub priority : Priority

pub record DashboardState : Type 0 where
  pub readiness : Option ReadinessSlice
  pub live : Option LiveStatusSlice
  pub live_kiosks : Option (List ConnectedKiosk)
  pub queue : Option ContentQueueSlice
  pub activity : Option (List ActivityFeedItem)
  pub contextual_actions : List ContextualAction
  pub degraded_sections : List String

abbrev pub section_readiness : String
section_readiness = "Comprobación"

abbrev pub section_live : String
section_live = "Estado en vivo"

abbrev pub section_live_kiosks : String
section_live_kiosks = "Pantallas conectadas"

abbrev pub section_queue : String
section_queue = "Contenido"

abbrev pub section_activity : String
section_activity = "Actividad"

unfoldable pub classify_kind : ContentItem → ContentQueueKind
classify_kind item =
    if ltb 0 (or_default item.recurring_every_x_iterations 0)
    then recurring
    else if or_default item.is_fixed false
    then fixed_eligible
    else regular

-- `item.isActive && !item.isNovelty`
abbrev pub is_queued : ContentItem → Bool
is_queued item = item.is_active && not (or_default item.is_novelty false)

-- `pinnedContentId !== null && item.id === pinnedContentId`
abbrev pub is_pinned : Option String → String → Bool
is_pinned none id = false
is_pinned (some pinned) id = str_eq id pinned

unfoldable pub queue_entry : Option String → ContentItem → ContentQueueEntry
unfolding classify_kind
queue_entry pinned item = record {
  id = item.id;
  title = item.title;
  display_order = item.display_order;
  kind = classify_kind item;
  recurring_every_x_iterations = item.recurring_every_x_iterations;
  is_pinned_now = is_pinned pinned item.id;
}

unfoldable pub build_queue_slice : List ContentItem → Option String → ContentQueueSlice
unfolding queue_entry
build_queue_slice items pinned =
    let active_items = filter is_queued items in
    record {
      entries =
          map (queue_entry pinned) (sort_by (λ (x : ContentItem). x.display_order) active_items);
      active_content_count = length active_items;
    }

abbrev pub alert : Message → ReadinessAlert
alert message = record { message = message; resolve_route = resolve_readiness_route message }

unfoldable pub fold_readiness : List Message → List Message → Bool → ReadinessSlice
fold_readiness blockers warnings is_ready = record {
  ready = is_ready;
  blockers = map alert blockers;
  warnings = map alert warnings;
}

abbrev pub entry_of : Option String → Option ContentQueueSlice → Option ContentQueueEntry
entry_of none queue = none
entry_of (some id) none = none
entry_of (some id) (some queue) =
    if non_empty id
    then find (λ (entry : ContentQueueEntry). str_eq entry.id id) queue.entries
    else none

unfoldable pub fold_live : {I : Type 0} → RemoteState I → Option ContentQueueSlice → LiveStatusSlice
fold_live state queue =
    let pinned =
      if is_fixed_mode state.content_mode then state.selected_fixed_content_id else none in
    let entry = entry_of pinned queue in
    record {
      display_session_active = or_default state.display_session_active false;
      content_mode = state.content_mode;
      ads_visible = state.ads_visible;
      updated_at = state.updated_at;
      pinned_content_id = pinned;
      pinned_content_title = elim entry [ none ↦ none | some e ↦ some e.title ];
      pinned_content_unresolved = truthy pinned && not (is_some entry);
    }
