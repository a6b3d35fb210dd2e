-- ===== src/Display/Item.antt =====
-- The data of the display: frontend/src/app/core/api/display.api.ts and
-- frontend/src/app/shared/media-upload.models.ts. A field that may be missing or null is an `Option`.
use kiosk_screen.Prelude.{ℕ, String, Bool, true, false, Option, none, some, str_eq}

-- `'none' | 'fade' | 'slide'`
pub data RotationAnimation : Type 0 where
  still fade slide : RotationAnimation

pub data MediaType : Type 0 where
  image_media video_media : MediaType

pub record MediaFileReference : Type 0 where
  pub id : String
  pub media_type : MediaType
  pub content_type : String
  pub file_size_bytes : ℕ
  pub original_filename : String
  pub media_url : String

pub data ContentType : Type 0 where
  photo video : ContentType

pub record DisplayContentItem : Type 0 where
  pub id : String
  pub title : String
  pub content_type : ContentType
  pub source_reference : String
  pub media_file : Option MediaFileReference
  pub is_active : Bool
  pub display_order : ℕ
  pub duration_seconds : Option ℕ
  pub rotation_animation : Option RotationAnimation
  pub animation_duration_milliseconds : Option ℕ
  pub effective_duration_seconds : Option ℕ
  pub effective_rotation_animation : Option RotationAnimation
  pub effective_animation_duration_milliseconds : Option ℕ
  pub is_fixed : Option Bool
  pub is_novelty : Option Bool
  pub recurring_every_x_iterations : Option ℕ

pub record DisplayAdItem : Type 0 where
  pub id : String
  pub source_reference : String
  pub media_file : Option MediaFileReference
  pub is_active : Bool
  pub display_order : ℕ
  pub duration_seconds : Option ℕ
  pub rotation_animation : Option RotationAnimation
  pub animation_duration_milliseconds : Option ℕ
  pub effective_duration_seconds : Option ℕ
  pub effective_rotation_animation : Option RotationAnimation
  pub effective_animation_duration_milliseconds : Option ℕ
  pub advertiser : Option String

pub data ContentMode : Type 0 where
  loop iframe fixed : ContentMode

abbrev pub is_loop : ContentMode → Bool
is_loop loop = true
is_loop _ = false

abbrev pub is_iframe : ContentMode → Bool
is_iframe iframe = true
is_iframe _ = false

abbrev pub is_fixed_mode : ContentMode → Bool
is_fixed_mode fixed = true
is_fixed_mode _ = false

abbrev pub mode_eq : ContentMode → ContentMode → Bool
mode_eq loop m = is_loop m
mode_eq iframe m = is_iframe m
mode_eq fixed m = is_fixed_mode m

-- `item.id === id`
abbrev pub has_id : String → DisplayContentItem → Bool
has_id k item = str_eq item.id k

-- `o === true`
abbrev pub is_true : Option Bool → Bool
is_true none = false
is_true (some b) = b

-- `item?.id ?? null`
abbrev pub item_id : Option DisplayContentItem → Option String
item_id none = none
item_id (some item) = some item.id
