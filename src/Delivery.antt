-- ===== src/Delivery.antt =====
-- boatstack/internal/softwaredelivery: the domain of software delivery over the kernel.
pub mod Ports
pub mod Model
pub mod Catalog
pub mod Supervisor
pub mod Examples
pub mod Opened
mod Tests
