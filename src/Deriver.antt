-- ===== src/Deriver.antt =====
-- The deriver (deriver/): the address pool, the queues of requests and the process that serves them.
pub mod Pool
pub mod Queue
pub mod Requests
pub mod Serve
mod Tests
