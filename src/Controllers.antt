-- ===== src/Controllers.antt =====
-- Controllers/controllers.go: the steps of the sender and of the receiver, and the two functions
-- that run them.
pub mod Actions
pub mod Rules
pub mod Plain
pub mod Sender
pub mod Receiver
pub mod Exchange
