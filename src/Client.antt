-- ===== src/Client.antt =====
-- src/client: the client that speaks the protocol.
pub mod Keep
pub mod Callbacks
pub mod Process
pub mod Receive
pub mod Connection
pub mod Api
pub mod Timer
pub mod Subscriptions
pub mod Thread
pub mod Loop
