-- ===== src/Ohci.antt =====
-- The host controller driver, portable-ohci-core.c, by its parts.
pub mod Branches
pub mod Transfer
pub mod Hub
pub mod Controller
pub mod Devices
pub mod Driver
pub mod Endpoints
pub mod Queue
pub mod Submit
pub mod Done
pub mod Unlink
pub mod Interrupt
mod Tests
mod UrbTests
mod DoneTests
