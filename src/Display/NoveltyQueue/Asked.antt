-- ===== src/Display/NoveltyQueue/Asked.antt =====
-- No icon waits for a medium that nobody brings.
use kiosk_screen.Prelude.{◌≡◌, true}
use kiosk_screen.Display.Payloads.{PreloadItem}
use kiosk_screen.Display.MediaCache.{MediaCache}
use kiosk_screen.Display.MediaCache.Served.{is_served}

abbrev pub IsServed : MediaCache → PreloadItem → Type 0
IsServed c item = is_served item.media_url c ≡ true
