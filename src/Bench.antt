-- ===== src/Bench.antt =====
-- code/bench: the programs that measure the queues and the bus.
-- What they measure of the clock and print is left out.
pub mod Args
pub mod Latency
pub mod SpscRun
pub mod BoundedRun
mod Tests
