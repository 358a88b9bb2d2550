-- ===== src/JsonRpc.antt =====
-- pyinc_tools/_jsonrpc.py: messages behind a Content-Length header.
pub mod Headers
pub mod Messages
pub mod Lines
pub mod Framing
pub mod Progress
pub mod Stream
mod Tests
