-- ===== src/Ibv.antt =====
-- c/ibtest/ibv-rc.c
pub mod World
pub mod Sock
pub mod Resources
pub mod Connect
pub mod Main
pub mod Owned
pub mod Samples
mod Tests
