-- ===== src/Transport.antt =====
-- internal/transport: how clients and peers reach a node.
pub mod RateLimiter
pub mod Message
pub mod ClientIp
pub mod Limits
pub mod Reads
pub mod Http
pub mod KvService
pub mod Grpc
