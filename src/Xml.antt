-- ===== src/Xml.antt =====
-- xml.cpp: the documents that the server answers with.
pub mod Markup
pub mod Scan
pub mod Balanced
pub mod Numbers
pub mod Sr
pub mod SrBalanced
pub mod Qmon
pub mod QmonBalanced
pub mod Ltss
pub mod Stats
