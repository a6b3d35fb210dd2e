-- ===== src/Admin/Content/Samples.antt =====
-- Three photos, as the tests of the contents' facade and of its page use them.
use kiosk_screen.Prelude.{ℕ, String, refl, Bool, true, false, none, [], ◌∷◌, IsDistinct}
use kiosk_screen.Display.Item.{photo}
use kiosk_screen.Admin.Catalog.{ids_of}
use kiosk_screen.Admin.Content.{ContentItem, content_listed, ContentFacade, initial_facade}

abbrev pub photo_item : String → ℕ → Bool → ContentItem
photo_item id order active = record {
  id = id;
  title = id;
  content_type = photo;
  source_reference = "/media/photo";
  media_file = none;
  is_active = active;
  display_order = order;
  duration_seconds = none;
  rotation_animation = none;
  animation_duration_milliseconds = none;
  effective_duration_seconds = none;
  effective_rotation_animation = none;
  effective_animation_duration_milliseconds = none;
  is_fixed = none;
  recurring_every_x_iterations = none;
  is_novelty = none;
}

abbrev pub three : ContentFacade
three = record initial_facade {
  items = photo_item "a" 1 true ∷ photo_item "b" 2 false ∷ photo_item "c" 3 true ∷ [];
}

pub three-IsDistinct : IsDistinct (ids_of three.items)
three-IsDistinct = (refl, (refl, (refl, tt)))
