-- ===== src/Starter.antt =====
-- The starter code in boilerplate/, from which the program was developed: what it implements of a
-- command line, a buffer, a kernel module and workloads of its own.
pub mod Numbers
pub mod Options
pub mod Bounds
pub mod Stubs
pub mod Commands
pub mod Dispatch
pub mod Buffer
pub mod Device
pub mod Outputs
pub mod Programs
pub mod Progress
mod Tests
