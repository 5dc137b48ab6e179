-- ===== src/Collector.antt =====
-- collector/: what is collected, by SSH, HTTP and the drivers of the components. The calls of them are
-- parameters; what the program makes of their answers is modelled.
pub mod Probe
pub mod Sections
pub mod Disk
pub mod Sockets
pub mod Host
pub mod Redis
pub mod MySql
pub mod Replication
pub mod Json
pub mod Es
pub mod Arithmetic
pub mod RabbitMq
pub mod Registry
pub mod ServiceCommand
pub mod Service
pub mod Mongo
pub mod BkDeps
