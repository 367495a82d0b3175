-- ===== src/Bigbang.antt =====
-- bigbang/src/main.rs: the boot loader.
pub mod Console
pub mod Pool
pub mod Loader
pub mod Setup
pub mod Main
