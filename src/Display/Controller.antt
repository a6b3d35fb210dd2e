-- ===== src/Display/Controller.antt =====
-- frontend/src/app/display/kiosk-rotation.controller.ts: the state of the controller, its advance of the
-- content, its inputs and its commands, and below them what they guarantee.
pub mod State
pub mod Advance
pub mod Inputs
pub mod Commands
pub mod Events
pub mod Timing
pub mod Polled
pub mod Novelty
pub mod Shown
pub mod Pausing
pub mod Ads
pub mod Pinning
pub mod Upkeep
mod Tests
