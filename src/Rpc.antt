-- ===== src/Rpc.antt =====
-- rpc/: the protocol, the serializer, the choice of an endpoint, discovery and the registry.
pub mod Protocol
pub mod Serializer
pub mod LoadBalancer
pub mod Discovery
pub mod Registry
pub mod Frames
pub mod Server
pub mod Client
mod Tests
