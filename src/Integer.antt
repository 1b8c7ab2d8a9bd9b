-- ===== src/Integer.antt =====
-- The integer reference domain, boatstack/kernel/conformance/integer.go.
pub mod Formats
pub mod Domain
pub mod Store
pub mod Fixture
pub mod Postconditions
pub mod CompareAndSwap
mod Tests
