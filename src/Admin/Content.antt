-- ===== src/Admin/Content.antt =====
-- frontend/src/app/features/content/content.facade.ts over the state of Admin/Facade, with the
-- data of frontend/src/app/core/api/content.api.ts.
pub mod Runs
pub mod Outcomes
pub mod Samples
mod Tests
use kiosk_screen.Prelude.{
  ℕ, String, refl, Bool, false, Option, none, some, List, [], ◌∷◌, map, if◌then◌else◌, or_default,
  non_empty,
}
use kiosk_screen.Display.Item.{RotationAnimation, MediaFileReference, ContentType}
use kiosk_screen.Admin.Catalog.{Listed, with_flag, flags_into}
use kiosk_screen.Admin.Facade.{
  Call, create, update, upload_file, replace_upload, keep_items, restore_flags, Facade,
  begin_saving, finish, send_all, send,
}

pub record ContentItem : Type 0 where
  pub id : String
  pub title : String
  pub content_type : ContentType
  pub source_reference : String
  pub media_file : Option MediaFileReference
  pub is_active : Bool
  pub display_order : ℕ
  pub duration_seconds : Option ℕ
  pub rotation_animation : Option RotationAnimation
  pub animation_duration_milliseconds : Option ℕ
  pub effective_duration_seconds : Option ℕ
  pub effective_rotation_animation : Option RotationAnimation
  pub effective_animation_duration_milliseconds : Option ℕ
  pub is_fixed : Option Bool
  pub recurring_every_x_iterations : Option ℕ
  pub is_novelty : Option Bool

-- `Omit<ContentItem, 'id' | 'displayOrder'>` with an order that may be missing; of the fields that
-- may be missing, those that the facade fills in.
pub record ContentItemRequest : Type 0 where
  pub title : String
  pub content_type : ContentType
  pub source_reference : String
  pub media_file : Option MediaFileReference
  pub display_order : Option ℕ
  pub is_active : Bool
  pub duration_seconds : Option ℕ
  pub rotation_animation : Option RotationAnimation
  pub animation_duration_milliseconds : Option ℕ
  pub is_fixed : Option Bool
  pub recurring_every_x_iterations : Option ℕ

instance abbrev pub content_listed : Listed ContentItem
content_listed = record {
  id = λ x. x.id;
  display_order = λ x. x.display_order;
  with_order = λ n x. record x { display_order = n };
  is_active = λ x. x.is_active;
  with_active = λ b x. record x { is_active = b };
  id-with_order = λ n x. refl;
  display_order-with_order = λ n x. refl;
  with_active_back = λ b x. refl;
  id-with_active = λ b x. refl;
}

abbrev pub ContentFacade : Type 0
ContentFacade = Facade ContentItem ContentItemRequest

abbrev pub initial_facade : ContentFacade
initial_facade = record {
  items = [];
  current = none;
  loading = false;
  saving = false;
  error = none;
  in_flight = [];
  notified = 0;
}

-- `toUpdatePayload(item, { isActive })`
unfoldable pub to_update_payload : ContentItem → Bool → ContentItemRequest
to_update_payload item active = record {
  title = item.title;
  content_type = item.content_type;
  source_reference = item.source_reference;
  media_file = item.media_file;
  display_order = some item.display_order;
  is_active = active;
  duration_seconds = item.duration_seconds;
  rotation_animation = item.rotation_animation;
  animation_duration_milliseconds = item.animation_duration_milliseconds;
  is_fixed = some (or_default item.is_fixed false);
  recurring_every_x_iterations = item.recurring_every_x_iterations;
}

-- `id ? withId(id) : without`
abbrev pub if_given :
    Option String
    → (String → Call ContentItemRequest)
    → Call ContentItemRequest
    → Call ContentItemRequest
if_given none with_id without_id = without_id
if_given (some id) with_id without_id = if non_empty id then with_id id else without_id

unfoldable pub save : ContentItemRequest → Option String → ContentFacade → ContentFacade
save payload id f =
    send keep_items (if_given id (λ given. update given payload) (create payload)) (begin_saving f)

unfoldable pub upload : ContentItemRequest → ℕ → Option String → ContentFacade → ContentFacade
upload payload file id f =
    send keep_items
      (if_given id (λ given. replace_upload given payload file) (upload_file payload file))
      (begin_saving f)

unfoldable pub upload_many : (ℕ → ContentItemRequest) → List ℕ → ContentFacade → ContentFacade
unfolding finish
upload_many payload_for_file files f =
    send_all keep_items (map (λ file. upload_file (payload_for_file file) file) files)
      (begin_saving f)

unfoldable pub set_active_many : List ContentItem → Bool → ContentFacade → ContentFacade
unfolding finish to_update_payload
set_active_many [] active f = f
set_active_many (x ∷ xs) active f =
    let previous_map = flags_into [] (x ∷ xs) in
    send_all (restore_flags previous_map)
      (map (λ (item : ContentItem). update item.id (to_update_payload item active)) (x ∷ xs))
      (record (begin_saving f) { items = with_flag previous_map active f.items })
