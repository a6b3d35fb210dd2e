-- ===== src/Display/Controller/Timing/Inputs.antt =====
-- A poll keeps the timers right.
use kiosk_screen.Prelude.{
  ℕ, String, ◌≡◌, refl, inl, inr, Bool, true, false, Option, none, some, List, [], ◌∷◌, map, arith,
  Bool-cases, JsMap,
}
use kiosk_screen.Display.Controller.Inputs.{remembered, fingerprints, seen_queue, novelty_added}
use kiosk_screen.Display.Controller.Timing.{
  SeenAgrees, IsTimed, arm_ad_timer_only-IsTimed, schedule_empty_queue_check-IsTimed,
  arm_all_timers-IsTimed,
}
use kiosk_screen.Display.Item.{DisplayContentItem, ContentMode, is_loop, mode_eq}
use kiosk_screen.Display.Controller.State.{
  Controller, DisplayAdLike, RotationConfig, Seen, is_nil, arm_ad_timer_only,
}
use kiosk_screen.Display.Controller.Inputs.{
  KioskControllerInputs, ad_text, rotation_config, config_eq, strs_eq, take_inputs,
  should_preserve_content_timer, run_inputs_effect, inputs_changed, config_changed,
  prune_novelty_claim_failures, sync_recurring_counters_from_queue,
}

pub mode_eq→eq : (a b : ContentMode) → mode_eq a b ≡ true → a ≡ b
mode_eq→eq a b h = ground arith

strs_eq-is_nil :
    (ads : List DisplayAdLike) (texts : List String)
    → strs_eq (map ad_text ads) texts ≡ true
    → is_nil texts ≡ is_nil ads
strs_eq-is_nil [] [] h = refl
strs_eq-is_nil [] (t ∷ ts) h = ground arith
strs_eq-is_nil (a ∷ as_) [] h = ground arith
strs_eq-is_nil (a ∷ as_) (t ∷ ts) h = refl

map-is_nil : (ads : List DisplayAdLike) → is_nil (map ad_text ads) ≡ is_nil ads
map-is_nil [] = refl
map-is_nil (a ∷ as_) = refl

-- Inputs whose configuration is the remembered one have its mode, and have ads just when it has.
config_eq-agrees :
    (inputs : KioskControllerInputs) (c : RotationConfig)
    → config_eq (rotation_config inputs) c ≡ true
    → (c.mode ≡ inputs.content_mode) × (is_nil c.ads ≡ is_nil inputs.ads)
config_eq-agrees inputs c h = (
  ground (arith, mode_eq→eq inputs.content_mode c.mode),
  ground (arith, strs_eq-is_nil inputs.ads c.ads),
)

take_inputs-IsTimed :
    (inputs : KioskControllerInputs) (c : Seen) (s : Controller)
    → s.seen ≡ some c
    → config_eq (rotation_config inputs) c.config ≡ true
    → IsTimed s
    → IsTimed (take_inputs inputs s)
unfolding take_inputs prune_novelty_claim_failures sync_recurring_counters_from_queue
take_inputs-IsTimed inputs c s e same h =
    let agrees = config_eq-agrees inputs c.config same in ground arith

preserve_needs :
    (queue : List DisplayContentItem) (mode : ContentMode) (previous : JsMap String)
    (changed added : Bool) (s : Controller)
    → should_preserve_content_timer queue mode previous changed added s ≡ true
    → (changed ≡ false) × (is_loop mode ≡ true) × (s.is_paused ≡ false)
unfolding should_preserve_content_timer
preserve_needs queue mode previous changed added s h = ground arith

remembered-agrees :
    (inputs : KioskControllerInputs) (s : Controller)
    → SeenAgrees
        (remembered inputs s).seen
        (remembered inputs s).content_mode
        (remembered inputs s).ads
unfolding take_inputs prune_novelty_claim_failures sync_recurring_counters_from_queue
remembered-agrees inputs s = (refl, map-is_nil inputs.ads)

changed_false :
    (seen : Option Seen) (c : RotationConfig)
    → config_changed seen c ≡ false
    → (x : Seen) × (seen ≡ some x) × (config_eq c x.config ≡ true)
changed_false none c h = absurd (ground arith)
changed_false (some x) c h = (x, refl, ground arith)

inputs_changed-false :
    (seen : Option Seen) (c : RotationConfig) (queue : List String)
    → inputs_changed seen c queue ≡ false
    → (x : Seen) × (seen ≡ some x) × (config_eq c x.config ≡ true)
inputs_changed-false none c queue h = absurd (ground arith)
inputs_changed-false (some x) c queue h = (x, refl, ground arith)

take_inputs-seen :
    (inputs : KioskControllerInputs) (s : Controller) → (take_inputs inputs s).seen ≡ s.seen
unfolding take_inputs prune_novelty_claim_failures sync_recurring_counters_from_queue
take_inputs-seen inputs s = refl

-- Where the content timer is kept, it stands as before, in loop mode and without a pause.
remembered-IsTimed :
    (inputs : KioskControllerInputs) (s : Controller) (x : Seen)
    → s.seen ≡ some x
    → config_eq (rotation_config inputs) x.config ≡ true
    → IsTimed s
    → IsTimed (remembered inputs s)
remembered-IsTimed inputs s x e same h =
    let t = take_inputs-IsTimed inputs x s e same h in
    record {
      content = t.content;
      ad = t.ad;
      frozen = t.frozen;
      ads_needed = t.ads_needed;
      ads_run = ground (arith, t.ads_run, take_inputs-seen inputs s, e);
      agrees = remembered-agrees inputs s;
    }

-- Whatever a poll brings, the timers are right after it.
pub run_inputs_effect-IsTimed :
    (now : ℕ) (inputs : KioskControllerInputs) (s : Controller)
    → IsTimed s
    → IsTimed (run_inputs_effect now inputs s)
unfolding run_inputs_effect
run_inputs_effect-IsTimed now inputs s h =
    let c = rotation_config inputs in
    let next = remembered inputs s in
    let preserve =
      should_preserve_content_timer inputs.content_queue inputs.content_mode (seen_queue s.seen)
        (config_changed s.seen c) (novelty_added inputs (seen_queue s.seen))
        (take_inputs inputs s) in
    elim (Bool-cases (inputs_changed s.seen c (fingerprints inputs.content_queue))) [
      | inl changed ↦ rw changed (elim (Bool-cases preserve) [
        | inl kept ↦
            let needs = preserve_needs inputs.content_queue inputs.content_mode _ _ _ _ kept in
            let (x, e, same) = changed_false s.seen c needs.0 in
            rw kept (
              schedule_empty_queue_check-IsTimed now (arm_ad_timer_only next)
                (arm_ad_timer_only-IsTimed next (remembered-IsTimed inputs s x e same h)))
        | inr dropped ↦ rw dropped (arm_all_timers-IsTimed now next (remembered-agrees inputs s))
      ])
      | inr unchanged ↦
          let (x, e, same) = inputs_changed-false s.seen c _ unchanged in
          rw unchanged (take_inputs-IsTimed inputs x s e same h)
    ]
