-- ===== src/Model.antt =====
-- model/types.go: what an inspection collects, and the results of its checks. A Go struct is a
-- record, a Go int an integer of `ℤ`, a nil pointer `none`; `F` is float64.
pub mod Check
pub mod Host
pub mod Service
pub mod Search
pub mod Database
pub mod Queue
pub mod Report
pub use Check.*
pub use Host.*
pub use Service.*
pub use Search.*
pub use Database.*
pub use Queue.*
pub use Report.*
