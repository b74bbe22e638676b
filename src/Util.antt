-- ===== src/Util.antt =====
-- xcb_util.c: display names, and the sockets that they stand for.
pub mod Strings
pub mod Display
pub mod Decimal
pub mod Open
pub mod Popcount
