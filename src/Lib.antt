-- ===== src/Lib.antt =====
-- A verification library for the robot data bus (RDB) of this repository: the C++ headers under
-- code/include/rdb, and the programs of code/bench that measure them.
--
-- The program. A TopicBus fans messages out inside one process: each subscription has a
-- BoundedQueue and a thread that delivers from it, and a publisher reaches those whose QoS is
-- compatible with its own. A ThreadPool runs tasks from the same kind of queue; an SpscRing is
-- the lock-free queue of one producer and one consumer; a BufferPool lends buffers for large
-- messages. Between processes, a message is a MessageHeader and a payload, cut out of a byte
-- stream by a FrameDecoder. A Histogram records latencies.
--
-- Files, and the code that each models:
--   Prelude        shared names: Boolean tests, lists and their members, words of 8 to 64 bits,
--                  `|`, `&` and shifts, signed integers.
--   Queue          code/include/rdb/concurrency/bounded_queue.h. `push_until`, `pop_until`,
--                  `close` and `clear` are cut where a thread holds the mutex; a thread that must
--                  wait ends its slice by `sleeping` and comes back in `push_waiting` or
--                  `pop_waiting`. Queue.Threads puts any number of threads on one queue, with
--                  both condition variables.
--   Bus            code/include/rdb/bus/topic_bus.h. `publish_erased` and `subscribe_locked` are
--                  the parts under the lock; `publish_step`, `push_backlog` and `deliver_round`
--                  are what the threads do after it, on the queues of Queue and by the check of
--                  Qos. Bus.System runs them in any order; Bus.Finishes follows one publisher,
--                  and Bus.Idle has `wait_for_idle`.
--   Qos            code/include/rdb/bus/qos.h. The presets and `check_compatible`.
--   Workers        code/include/rdb/concurrency/thread_pool.h. `post`, `stop` and `run` on a
--                  queue of Queue; Workers.System runs the workers, the callers and the stopping
--                  threads in any order.
--   Spsc           code/include/rdb/concurrency/spsc_ring.h. `push` and `pop` with the cached
--                  indices, and the rounding of the capacity. Spsc.Threads cuts both at each
--                  access of a member that the threads share (the load of the other's index, the
--                  slot, the store of its own) and runs a producer and a consumer on one ring in
--                  any order.
--   Pool           code/include/rdb/msg/buffer_pool.h. `acquire`, the deleter and `release`,
--                  `resize`.
--   Bytes, Header  code/include/rdb/msg/header.h. `encode_header` and `decode_header` on lists of
--                  bytes, and the fingerprint of a schema.
--   Framing        code/include/rdb/transport/framing.h. `encode_frame`, `feed`, `next` and
--                  `compact`.
--   Histogram      code/include/rdb/metrics/histogram.h. `index_of`, `bucket_upper`, `record`,
--                  `merge`, `percentile`.
--   Time           code/include/rdb/common/time.h. `sleep_until_next` of a Ticker.
--   Bench          code/bench/bench_queue_throughput.cpp: `run_spsc_ring` on the ring of Spsc,
--                  with the flag `done`, and `run_bounded_queue` on a queue of Queue, with the
--                  threads of both. code/bench/args.h: the command line.
--                  code/bench/bench_bus_latency.cpp: the callback of a subscriber and the loop
--                  that publishes, on Pool, Time and Histogram.
--   Testing        code/include/rdb/testing/check.h. `run_all` on the registry, and `wait_for`.
--
-- In each, a child module named for what it shows holds the theorems, and Tests runs the code on
-- concrete values.
--
-- Numbers. An unsigned integer of w bits is a natural number with `% 2 ^ w` written out wherever
-- the code can wrap around; nanoseconds of a duration are signed. A time point is a number, with
-- `max()` and `min()` of the waits apart. Sums of positions inside one buffer in memory do not
-- wrap and are plain.
--
-- Loops. Those over a list recurse on it. `bit_width_loop` has fuel 64, the number of digits;
-- `smear` has 7, since the shift doubles from 1 and stops at 64. `deliver_loop` and the `run` of
-- Workers, which can go on for ever, take fuel, and give `none` when it runs out: a closed queue
-- of n items takes n + 1 rounds, one for each and the one that returns.
--
-- What is outside. Mutexes, condition variables, threads and `shared_ptr` are modelled by what
-- they guarantee (slices that do not overlap, positions in a heap), not as code. Memory orders
-- are not modelled: the steps of Spsc.Threads are seen in the order in which they happen.
-- `double` does not exist here: `percentile` takes its comparison as a parameter, and what only
-- formats doubles is left out. Futures, the conversions of code/include/rdb/common/time.h to
-- double, the test macros, the tests, and what the benchmarks measure and print are left out.
pub mod Pool
pub mod Time
pub mod Bench
pub mod Testing
pub mod Prelude
pub mod Bytes
pub mod Header
pub mod Framing
pub mod Qos
pub mod Histogram
pub mod Bus
pub mod Queue
pub mod Spsc
pub mod Workers
