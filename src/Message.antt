-- ===== src/Message.antt =====
-- src/message: the codec of the MQTT control packets.
pub mod Codes
pub mod Remain
pub mod Field
pub mod Ack
pub mod Ping
pub mod Publish
pub mod Header
pub mod Connack
pub mod Connect
pub mod Suback
pub mod Filters
pub mod Subscribe
pub mod Unsubscribe
