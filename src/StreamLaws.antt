-- ===== src/StreamLaws.antt =====
-- What holds of a stream (rawstream.go) whatever is done to it.
pub mod Credit
pub mod Events
pub mod Keeping
pub mod Lifecycle
pub mod Sending
