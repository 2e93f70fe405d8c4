-- ===== src/Load.antt =====
-- pkg/load/load.go: the load generator of the gNB.
-- A `Runner` is the two configurations, which the functions below take as arguments.
pub mod Rates
pub mod Attempt
pub mod Path
pub mod Run
pub mod Sweep
pub mod Open
