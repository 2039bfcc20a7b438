-- ===== src/Benchmark.antt =====
-- benchmark/client/client.cc and benchmark/server/server.cc: the benchmark of the
-- framework, a service with two methods and a client that calls one of them from many threads.
pub mod Options
pub mod Printed
pub mod Run
pub mod Accounts
pub mod Users
pub mod Login
pub mod Counted
pub mod Metrics
pub mod Quantiles
pub mod Main
