-- ===== src/Display/Controller/Pausing.antt =====
-- What a pause and the other modes hold still, and what they do not.
use kiosk_screen.Prelude.{ℕ, ◌≡◌, ◌⊎◌, true, false, none, arith}
use kiosk_screen.Display.Item.{is_loop}
use kiosk_screen.Display.Controller.State.{Controller}
use kiosk_screen.Display.Controller.Advance.{fire_content_timer}
use kiosk_screen.Display.Controller.Timing.{IsTimed}

-- Where the invariant of the timers holds, the firing of the content timer changes nothing outside
-- loop mode and during a pause.
pub fire_content_timer_still :
    (now : ℕ) (s : Controller)
    → IsTimed s
    → (is_loop s.content_mode ≡ false) ⊎ (s.is_paused ≡ true)
    → fire_content_timer now s ≡ s
unfolding fire_content_timer
fire_content_timer_still now s h still =
    let idle : s.timers.content_timer ≡ none = ground (arith, h.frozen) in ground arith
