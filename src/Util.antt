-- ===== src/Util.antt =====
-- src/Util.cpp: the functions on texts. A text is a list of bytes.
pub mod Tables
pub mod Url
pub mod Trim
pub mod Replace
pub mod Base64
mod Tests
