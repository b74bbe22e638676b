-- ===== src/Out.antt =====
-- xcb_out.c: requests on their way to the server.
pub mod Number
pub mod Length
pub mod Vector
pub mod Send
pub mod Request
