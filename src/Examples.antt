-- ===== src/Examples.antt =====
-- Concrete runs of the program: the theorems applied where their hypotheses hold.
mod Setup
mod Calls
mod Frames
mod Streams
mod Inputs
mod Parts
mod Outside
mod Threads
mod Serving
mod Loading
mod Tasks
mod OverTcp
mod Benchmarks
mod Watched
