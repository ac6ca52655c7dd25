-- ===== src/Classifier.antt =====
-- OFTonSGX/trusted/lib/classifier.c, classifier.h and match.c: the flow classifier of a table.
-- `struct hmap` is used through what hmap.h promises: a search by hash sees the nodes of that hash,
-- and an iteration visits each node once, in no particular order. So the rules of a `cls_table` are
-- a list of chains, a head and the identical rules of lower priority behind it (the circular
-- `rule->list`, opened at the head), and the tables are one list, that of `tables_priority`.
mod Data
mod Insert
mod Remove
mod Search
mod Cursor
pub mod Invariant
pub mod FindMatch
pub mod Lookup
pub mod Highest
pub mod Order
pub mod Moves
pub mod ChainInsert
pub mod Twins
pub mod RulesInsert
pub mod Counts
pub mod Replace
pub mod Replaced
mod Examples
unfoldable pub use Data.*
unfoldable pub use Insert.*
unfoldable pub use Remove.*
unfoldable pub use Search.*
unfoldable pub use Cursor.*
