-- ===== src/Relay.antt =====
-- internal/relay/relay.go: dialling and polling a pipe, the ping of the engine, a bridged
-- connection and the listeners.
pub mod Poll
pub mod Ping
pub mod Bridge
pub mod BridgeLaws
pub mod BridgeEnds
pub mod Serve
