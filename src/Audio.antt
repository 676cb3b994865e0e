-- ===== src/Audio.antt =====
-- extension/src/audio: the opus decoder's timestamps, the playback scheduler and the routing graph.
pub mod Decoder
pub mod Scheduler
pub mod Graph
