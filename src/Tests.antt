-- ===== src/Tests.antt =====
-- The models run on concrete inputs, with a server in memory and a small set of library functions.
mod Samples
mod Sessions
mod Tokens
mod Requests
mod Contracts
mod Signing
mod Messages
mod Data
mod Connections
mod Streams
mod Logins
mod Logs
mod Overlaps
mod Profiles
mod Routes
mod Settings
mod Services
