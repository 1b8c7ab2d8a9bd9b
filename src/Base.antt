-- ===== src/Base.antt =====
-- What every component shares: the library's names, tests on numbers and texts, lists, sorting.
mod Names
mod Tests
mod Lists
pub mod Int
pub mod Text
pub mod Sort
unfoldable pub use Names.*
unfoldable pub use Tests.*
unfoldable pub use Lists.*
