-- ===== src/Tests.antt =====
-- Concrete runs, and the theorems at concrete inputs.
mod Buffers
mod Values
mod Timers
mod Urls
mod Events
mod Fds
mod Hooks
mod Servlets
mod Params
mod Schedules
mod Streams
mod Pools
mod Parsing
mod Logs
mod Receives
mod Addresses
mod Sockets
