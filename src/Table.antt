-- ===== src/Table.antt =====
-- The concurrent map that control-plane/src/state/mod.rs and control-plane/src/streaming/mod.rs
-- keep their data in (`dashmap::DashMap` with `String` keys), as an interface: its operations, and
-- the documented behaviour that the code relies on. Each operation is atomic.
mod Entries
mod Interface
mod Counting
mod Listed
pub use Interface.*
pub use Counting.*
pub use Listed.*
unfoldable pub use Counting.{count, tally}
unfoldable pub use Listed.{put, discard}
unfoldable pub use Entries.{find, without}
