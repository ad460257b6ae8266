-- ===== src/Httpd.antt =====
-- version_01/httpd.c: one thread serves one client.
pub mod Types
pub mod Line
pub mod Replies
pub mod File
pub mod RequestLine
pub mod Cgi
pub mod Accept
pub mod Main
mod Tests
