-- ===== src/Sse.antt =====
-- agentsfleet/src/lib/sse.ts: server-sent events over GET. A text is a list of code units, and the
-- decoder's chunks are given decoded. `JSON.parse` is a parameter.
pub mod Frame
pub mod Stream
pub mod Post
pub mod Framing
pub mod Chunks
pub mod RoundTrip
pub use Frame.*
pub use Stream.*
