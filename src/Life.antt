-- ===== src/Life.antt =====
-- The life of a connection: what every call of the library keeps, whatever the other threads do.
pub mod Evolves
pub mod Octets
pub mod Packets
pub mod Reading
pub mod Rounds
pub mod Sending
pub mod Numbering
pub mod Lengths
pub mod Loan
pub mod Requests
pub mod Polling
pub mod Waiting
pub mod Checking
pub mod Others
pub mod Beginning
pub mod Pieces
pub mod Calls
