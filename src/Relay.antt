-- ===== src/Relay.antt =====
-- extension/src/relay/client.ts: the subscriber's connection, and the dispatch of its messages.
pub mod Dispatch
pub mod Connection
