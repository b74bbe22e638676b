-- ===== src/Tests.antt =====
-- Each property at a concrete input, and runs of the definitions.
mod Data
mod Extensions
mod Reading
mod Replies
mod Sending
mod Ids
mod Names
mod Waiting
mod Connecting
mod Sockets
mod Life
mod Arriving
