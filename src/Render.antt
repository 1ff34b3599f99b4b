-- ===== src/Render.antt =====
-- Package render (internal/render): from label models and profiles to the config document.
pub mod Merge
pub mod Coerce
pub mod Escape
pub mod Model
pub mod Profiles
