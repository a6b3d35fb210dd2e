-- ===== src/Display/IframeScale.antt =====
-- frontend/src/app/display/iframe-scale.service.ts. Scales are in thousandths.
use kiosk_screen.Prelude.{
  ℕ, String, ◌≡◌, Bool, true, false, not, ◌&&◌, Option, none, some, [], arith, if◌then◌else◌,
  str_eq, or_default, non_empty, opt_str_eq, JsMap, map_get, map_set, map_delete, map_get-map_set,
  map_get-map_delete,
}
use kiosk_screen.Display.Payloads.{IframeScaleUpdatedPayload, ScaleSource, override, default}

pub record Scale : Type 0 where
  pub scale_x : ℕ
  pub scale_y : ℕ

pub record IframeScales : Type 0 where
  pub display_device_id : Option String
  pub overrides : JsMap Scale

abbrev pub reset : IframeScales
reset = record { display_device_id = none; overrides = [] }

-- `loadForKiosk` up to its request, and the answer of the server.
abbrev pub load_for_kiosk : String → IframeScales → IframeScales
load_for_kiosk id s = record s { display_device_id = some id }

abbrev pub loaded : Option (JsMap Scale) → IframeScales → IframeScales
loaded overrides s = record s { overrides = or_default overrides [] }

abbrev pub is_default : ScaleSource → Bool
is_default default = true
is_default override = false

unfoldable pub apply_scale_update : IframeScaleUpdatedPayload → IframeScales → IframeScales
apply_scale_update p s =
    if not (opt_str_eq (some p.display_device_id) s.display_device_id)
    then s
    else if is_default p.source
    then record s { overrides = map_delete s.overrides p.iframe_id }
    else record s {
      overrides =
          map_set s.overrides p.iframe_id (record { scale_x = p.scale_x; scale_y = p.scale_y });
    }

unfoldable pub resolve_scale : Option String → ℕ → ℕ → IframeScales → Scale
resolve_scale none scale_x scale_y s = record { scale_x = scale_x; scale_y = scale_y }
resolve_scale (some iframe_id) scale_x scale_y s =
    if non_empty iframe_id
    then or_default (map_get s.overrides iframe_id)
        (record { scale_x = scale_x; scale_y = scale_y })
    else record { scale_x = scale_x; scale_y = scale_y }

-- What an update asks for: its scale, or the scale that the caller has.
abbrev pub asked : IframeScaleUpdatedPayload → ℕ → ℕ → Scale
asked p scale_x scale_y =
    if is_default p.source
    then record { scale_x = scale_x; scale_y = scale_y }
    else record { scale_x = p.scale_x; scale_y = p.scale_y }

-- After an update for this display the iframe that it names has the scale that it asks for, and every
-- other iframe the scale that it had; an update for another display changes no scale.
pub resolve_scale-apply_scale_update :
    (p : IframeScaleUpdatedPayload) (id : String) (scale_x scale_y : ℕ) (s : IframeScales)
    → non_empty id ≡ true
    → resolve_scale (some id) scale_x scale_y (apply_scale_update p s) ≡ (
        if opt_str_eq (some p.display_device_id) s.display_device_id && str_eq p.iframe_id id
        then asked p scale_x scale_y
        else resolve_scale (some id) scale_x scale_y s)
unfolding resolve_scale apply_scale_update
resolve_scale-apply_scale_update p id scale_x scale_y s h = ground (
  arith,
  h,
  map_get-map_delete s.overrides p.iframe_id id,
  map_get-map_set s.overrides p.iframe_id id (record { scale_x = p.scale_x; scale_y = p.scale_y }),
)
