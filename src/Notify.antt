-- ===== src/Notify.antt =====
-- notify/: which warnings of a report are mailed, and when.
pub mod Alerts
pub mod Persistence
pub mod State
pub mod Trigger
pub mod Config
pub mod Signature
pub mod HtmlFrag
pub mod Email
pub mod Flow
pub mod Demotion
