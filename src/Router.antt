-- ===== src/Router.antt =====
-- tp2/src/protorouter.py, class ProtoRouter, whose connection is the list of messages sent. POX
-- raises events to it one after another. The logging is left out, and so are `launch` and the
-- registration as a listener. `time.time()` is two readings per event: the first of the reap that a
-- table operation starts with, the second of the entry that it writes.
pub mod Sending
pub mod Forwarding
pub mod Handlers
pub mod Steps
pub mod Sessions
pub mod Flows
pub mod Waiting
