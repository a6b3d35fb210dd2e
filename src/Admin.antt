-- ===== src/Admin.antt =====
-- The administration pages: their facades, which keep the state that the pages show, and the lists.
pub mod Catalog
pub mod Errors
pub mod Facade
pub mod Content
pub mod Ads
pub mod Pages
pub mod ContentList
pub mod ContentStream
pub mod RemoteControl
pub mod Dashboard
