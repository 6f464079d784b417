-- ===== src/Outbound.antt =====
-- pkg/connector/tumblrdb/outbound.go
pub mod Rows
pub mod Hex
pub mod Send
pub mod Reading
pub mod Statements
pub mod Create
pub mod Receipts
pub mod Progress
pub mod Terminal
pub mod Calls
pub mod Framework
pub mod Readable
pub mod Handled
pub mod Submitted
pub mod Due
pub mod Ended
pub mod Claims
mod Tests
