-- ===== src/Registry.antt =====
-- ui/packages/app/lib/streaming/zombie-stream-registry.ts: the subscriptions of one zombie id. The
-- map's other keys are not touched by any operation on this one, so the map is the entry under the
-- key, if there is one. Entries, event sources and timers are named by numbers; a callback holds the
-- entry it was made for, also after the map has forgotten it.
pub mod State
pub mod Operations
pub mod Outbox
pub mod Connections
pub mod Subscribers
pub mod Callbacks
pub mod Reachable
pub mod TempId
pub mod Settled
pub mod Reconcile
pub mod Exchange
pub mod Commute
pub mod Sent
