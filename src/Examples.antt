-- ===== src/Examples.antt =====
-- Concrete inputs on which the theorems of the other modules are applied.
mod Statistics
mod Settings
mod Queueing
mod Clusters
mod Traffic
mod Runners
mod Runs
mod Commands
