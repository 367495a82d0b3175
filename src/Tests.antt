-- ===== src/Tests.antt =====
-- Runs on concrete machines and values.
pub mod Machines
pub mod Paging
pub mod FirstPage
pub mod Layouts
pub mod Units
pub mod Boot
pub mod Kernel
pub mod Loading
mod Demand
