-- ===== src/Mutex.antt =====
-- mutex/: the generic containers behind a mutex. Each method takes the lock for its whole body, so a
-- call is one step, a function on the contents.
pub mod Map
pub mod Slice
pub mod Examples
