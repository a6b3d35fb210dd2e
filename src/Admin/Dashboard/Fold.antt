-- ===== src/Admin/Dashboard/Fold.antt =====
-- The whole dashboard from the answers of its five sources: `load`, `fold`, `reloadLive`, the
-- activity and the actions of dashboard.facade.ts.
use kiosk_screen.Prelude.{
  ℕ, String, Bool, true, false, not, ◌&&◌, Option, none, some, List, [], ◌∷◌, ◌++◌, map, ◌==◌,
  if◌then◌else◌, str_eq, truthy, take, head?, filter, JsSet, set_has, sort_down, codes,
}
use kiosk_screen.Admin.Content.{ContentItem}
use kiosk_screen.Admin.RemoteControl.{RemoteState}
use kiosk_screen.Admin.Dashboard.Routes.{Message, lowercase, truncate_label}
use kiosk_screen.Admin.Dashboard.{
  ReadinessSlice, LiveStatusSlice, ConnectedKiosk, ContentQueueSlice, ActivitySeverity, info,
  warning, error, DisplayEvent, ActivityFeedItem, primary, secondary, ContextualAction,
  DashboardState, section_readiness, section_live, section_live_kiosks, section_queue,
  section_activity, build_queue_slice, fold_readiness, fold_live,
}

abbrev pub message_eq : Message → Message → Bool
message_eq [] [] = true
message_eq (c ∷ cs) (d ∷ ds) = c == d && message_eq cs ds
message_eq _ _ = false

unfoldable pub normalize_severity : Message → ActivitySeverity
unfolding codes
normalize_severity severity =
    let lower = lowercase severity in
    if message_eq lower (codes "error")
    then error
    else if message_eq lower (codes "warning")
    then warning
    else info

abbrev pub activity_item : DisplayEvent → ActivityFeedItem
unfolding normalize_severity
activity_item event = record {
  id = event.id;
  event_type = event.event_type;
  severity = normalize_severity event.severity;
  message = event.message;
  created_at = event.created_at;
}

-- `time` is `new Date(text).getTime()`.
unfoldable pub fold_activity : (String → ℕ) → List DisplayEvent → List ActivityFeedItem
unfolding normalize_severity
fold_activity time events =
    map activity_item (take 15 (sort_down (λ (e : DisplayEvent). time e.created_at) events))

unfoldable pub blocker_action : Option ReadinessSlice → List ContextualAction
unfolding truncate_label
blocker_action none = []
blocker_action (some slice) = elim (head? slice.blockers) [
  | none ↦ []
  | some blocker ↦
      record {
        label = codes "Resolver: " ++ truncate_label blocker.message;
        route = blocker.resolve_route;
        icon = "error";
        priority = primary;
      }
      ∷ []
]

abbrev pub content_action : Option ContentQueueSlice → List ContextualAction
content_action none = []
content_action (some slice) =
    if slice.active_content_count == 0
    then (record {
      label = codes "Añadir contenido";
      route = "/admin/content/new";
      icon = "add_photo_alternate";
      priority = secondary;
    }
        ∷ [])
    else []

abbrev pub check_action : Option ReadinessSlice → List ContextualAction
check_action none = []
check_action (some slice) =
    if slice.ready
    then []
    else (record {
      label = codes "Ejecutar comprobación";
      route = "/admin/readiness";
      icon = "fact_check";
      priority = secondary;
    }
        ∷ [])

abbrev pub hero_routes : JsSet
hero_routes = "/display" ∷ "/admin/remote-control" ∷ []

unfoldable pub derive_contextual_actions :
    Option ReadinessSlice → Option ContentQueueSlice → List ContextualAction
unfolding blocker_action
derive_contextual_actions readiness queue = take 4 (
    filter (λ (action : ContextualAction). not (set_has hero_routes action.route))
      (blocker_action readiness ++ content_action queue ++ check_action readiness))

-- The report of the readiness: blockers, warnings and whether all is ready.
pub record ReadinessReport : Type 0 where
  pub blockers : List Message
  pub warnings : List Message
  pub ready : Bool

-- What the sources answered; a source that failed is none.
pub record Sources (I : Type 0) : Type 0 where
  pub readiness : Option ReadinessReport
  pub live : Option (RemoteState I)
  pub live_kiosks : Option (List ConnectedKiosk)
  pub content : Option (List ContentItem)
  pub events : Option (List DisplayEvent)

abbrev pub failed_section : {A : Type 0} → String → Option A → List String
failed_section name none = name ∷ []
failed_section name (some a) = []

-- `live?.pinnedContentId`
abbrev pub pinned_of : Option LiveStatusSlice → Option String
pinned_of none = none
pinned_of (some live) = live.pinned_content_id

module _ {I : Type 0} where
  abbrev pub readiness_of : Sources I → Option ReadinessSlice
  readiness_of s = elim s.readiness [
    | none ↦ none
    | some report ↦ some (fold_readiness report.blockers report.warnings report.ready)
  ]

  abbrev pub plain_queue : Sources I → Option ContentQueueSlice
  plain_queue s = elim s.content [ none ↦ none | some items ↦ some (build_queue_slice items none) ]

  abbrev pub live_of : Sources I → Option LiveStatusSlice
  live_of s = elim s.live [ none ↦ none | some state ↦ some (fold_live state (plain_queue s)) ]

  abbrev pub queue_of : Sources I → Option ContentQueueSlice
  queue_of s = elim s.content [
    | none ↦ none
    | some items ↦
        let pinned = pinned_of (live_of s) in
        some (build_queue_slice items (if truthy pinned then pinned else none))
  ]

  unfoldable pub load_dashboard : (String → ℕ) → Sources I → DashboardState
  unfolding derive_contextual_actions
  load_dashboard time s = record {
    readiness = readiness_of s;
    live = live_of s;
    live_kiosks = s.live_kiosks;
    queue = queue_of s;
    activity = elim s.events [ none ↦ none | some events ↦ some (fold_activity time events) ];
    contextual_actions = derive_contextual_actions (readiness_of s) (queue_of s);
    degraded_sections =
        failed_section section_readiness s.readiness
        ++ failed_section section_queue s.content
        ++ failed_section section_live s.live
        ++ failed_section section_live_kiosks s.live_kiosks
        ++ failed_section section_activity s.events;
  }

  unfoldable pub reload_live : Option (RemoteState I) → DashboardState → DashboardState
  unfolding derive_contextual_actions
  reload_live none current = record current {
    live = none;
    degraded_sections =
        if set_has current.degraded_sections section_live
        then current.degraded_sections
        else current.degraded_sections ++ section_live ∷ [];
    contextual_actions = derive_contextual_actions current.readiness current.queue;
  }
  reload_live (some state) current = record current {
    live = some (fold_live state current.queue);
    degraded_sections = filter (λ s. not (str_eq s section_live)) current.degraded_sections;
    contextual_actions = derive_contextual_actions current.readiness current.queue;
  }
