-- ===== src/Conn.antt =====
-- Framed connections: crates/transport/src/frame/conn/mod.rs.
pub mod Outgoing
pub mod Egress
pub mod FrameHead
pub mod Nested
pub mod Subscriptions
pub mod Ingress
pub mod Incoming
