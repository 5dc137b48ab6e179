-- ===== src/Checker.antt =====
-- checker/: the rules that turn what was collected into check results.
pub mod Summary
pub mod Host
pub mod Cells
pub mod Colours
pub mod Severity
pub mod Es
pub mod Mongo
pub mod Redis
pub mod RabbitMq
pub mod BkDeps
pub mod Service
pub mod Replication
