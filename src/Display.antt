-- ===== src/Display.antt =====
-- The kiosk's display runtime: frontend/src/app/display.
pub mod Item
pub mod Rotation
pub mod Cadence
pub mod Cursor
pub mod Payloads
pub mod Fingerprint
pub mod Controller
pub mod Viewer
pub mod NoveltyQueue
pub mod PreloadReady
pub mod Gate
pub mod MediaCache
pub mod Polling
pub mod IframeScale
pub mod Label
pub mod Stream
pub mod Screen
pub mod Scheduler
mod Samples
mod Tests
