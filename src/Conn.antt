-- ===== src/Conn.antt =====
-- c/ibtest/cm-conn.c and c/ibtest/ib-conn.c, two servers over librdmacm.
pub mod World
pub mod Samples
pub mod Cm
pub mod Ib
