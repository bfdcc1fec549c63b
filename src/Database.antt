-- ===== src/Database.antt =====
-- database.cpp: the static methods of the class Database, one function each. A method that writes
-- the local MySQL database returns the new contents; db.transaction() and db.commit() bracket
-- statements of one connection and are not modelled apart.
pub mod Time
pub mod Siebel
pub mod Chat
pub mod Lookups
pub mod Cache
pub mod Phone
pub mod Qmon
pub mod Listing
pub mod Queue
pub mod Engineer
pub mod Escape
pub mod Ltss
pub mod Connections
pub mod Frame
pub mod Lists
