-- ===== src/Update.antt =====
-- The request /updateDB of ServerThread::run: the loops that bring the local tables in line with the
-- remote lists. `clock i` is the time that round i of the loop reads.
pub mod Loop
pub mod Steps
pub mod Rows
pub mod Mirror
pub mod Effects
pub mod Waits
pub mod Chats
pub mod Request
pub mod Served
pub mod Statements
pub mod Programs
pub mod Fits
