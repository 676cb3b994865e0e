-- ===== src/Examples.antt =====
-- Runs of the definitions on concrete inputs, and instances of the theorems.
pub mod Sample
pub mod Frames
pub mod Payloads
pub mod Playback
pub mod Pages
pub mod Mixing
pub mod Tools
pub mod Panels
pub mod Sounding
