-- ===== src/Thread.antt =====
-- serverthread.cpp: the line of a request, which handlers it runs, and what they write and leave in
-- the tables. What they read and write in the tables is in Database, Update and Xml.
pub mod Routes
pub mod Arguments
pub mod Out
pub mod Connections
pub mod Survey
pub mod Welcome
pub mod Replies
pub mod Line
