-- ===== src/Redis.antt =====
-- core/redis/base-redis.service.ts: the server is an interface, `Server`; `Storage` is the service
-- over it, and `Memory` an implementation of the interface.
pub mod Server
pub mod Storage
pub mod Memory
pub mod Commands
pub mod Namespace
