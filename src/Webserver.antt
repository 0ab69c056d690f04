-- ===== src/Webserver.antt =====
-- The web server, webserver/server_thread.c.
pub mod Server
pub mod Cache
pub mod Buffer
pub mod Wakeups
pub mod Fifo
pub mod Rio
pub mod Request
pub mod Client
pub mod Serving
mod Tests
mod CacheTests
mod ServingTests
mod RequestTests
