-- ===== src/Webserver.antt =====
-- The web server of webserver/: a thread that accepts connections, a bounded buffer of them, and
-- worker threads that serve them with the help of a cache of files.
pub mod Buffer
pub mod Text
pub mod Rio
pub mod Request
pub mod Client
pub mod Cache
mod Tests
