-- ===== src/QString.antt =====
-- The operations of QString that the program calls, on lists of code units, as Qt documents them.
pub mod Replace
pub mod Cdata
pub mod Trim
pub mod Number
pub mod Split
pub mod Tokens
