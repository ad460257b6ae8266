-- ===== src/HttpConn.antt =====
-- version_03/http/http_conn.cpp and http_conn.h: one connection, its parser, and its replies.
pub mod Types
pub mod Line
pub mod Parse
pub mod Request
pub mod Reply
pub mod Send
pub mod Process
mod Tests
