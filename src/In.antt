-- ===== src/In.antt =====
-- xcb_in.c: what is read from the server.
pub mod Number
pub mod Block
pub mod Read
pub mod Expect
pub mod Poll
pub mod Discard
pub mod Wait
