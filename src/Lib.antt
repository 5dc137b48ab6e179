-- ===== src/Lib.antt =====
-- weops-inspect: an inspection of a BlueKing platform. One run loads its settings from the
-- environment, collects metrics of the hosts, the modules and the open source components, checks
-- them by rules, confirms new warnings over several runs, writes a report, and mails an alert or a
-- recovery. This library models the run from the settings to the saved state, but for the calls of
-- SSH, HTTP and the drivers, and the rendering.
--
-- The parts, in the order of a run, with the files that model them:
--   config/config.go: Config.Types (the structs), Config.Env (parseIPList, envOrDefault, parseIntEnv
--     and the like), Config.Hosts (GetModuleHosts, buildAllHosts), Config.Load (Load, Validate), and
--     Config.Errors on what Load rejects.
--   model/types.go: Model and its children, one record for each struct. A Go int is an integer of ℤ,
--     a nil pointer is `none`, a string is its list of code points, and float64 is a parameter with
--     the operations of Prelude.Float. MySQL clusters are collected and shown, but have no rules.
--   lock/lock.go with the start of main.go: Lock (Acquire, and whether the run takes place) and
--     Lock.Exclusion (instances that start and end in any order, as a step relation).
--   collector/: Collector.Probe (probe.go: classes of errors, RedactDSN), Collector.Sections,
--     Collector.Disk, Collector.Sockets and Collector.Host (host.go: parseSections, parseDiskUsage,
--     parseSSOutput, the other parsers),
--     Collector.Host.Schedule (CollectAllHosts), Collector.Registry (service_registry.go),
--     Collector.ServiceCommand and Collector.Service (service.go), Collector.MySql, Collector.Replication, Collector.Redis with
--     Collector.Redis.Sentinel, Collector.Mongo, Collector.Json and Collector.Es (es.go),
--     Collector.Arithmetic and Collector.RabbitMq (rabbitmq.go), and Collector.BkDeps (bkmonitor_dep.go). The other modules below these hold
--     proofs. A goroutine is one step, and the order in which the goroutines end is an argument.
--   checker/: Checker.Host, Checker.Service and Checker.Replication (rules.go), Checker.Es,
--     Checker.Mongo, Checker.Redis, Checker.RabbitMq, Checker.BkDeps, and Checker.Summary
--     (Summarize). A rule returns the mutated struct beside its results; Checker.Cells has the loop
--     that does so over a slice. Checker.Colours relates results and coloured cells, and
--     Checker.Severity says which findings are warnings.
--   main.go: Inspect.Gather calls the collectors; Inspect makes the report of what they return, with
--     CrossCheckSentinelMaster of collector/replication.go; Inspect.Run is the rest, from Prepare over output.Write
--     to Dispatch. output.Write is a parameter that gives the path of the HTML file or fails; the
--     report that it was given is kept under that path.
--   notify/: Notify.Config (config.go), Notify.Alerts (alerts.go), Notify.Persistence (persistence.go:
--     a warning passes after N consecutive runs), Notify.Signature (signature.go), Notify.Trigger
--     (trigger.go), Notify.State (state.go: reading and saving the state), Notify.Demotion
--     (demotePending of notify.go), Notify.Email (email.go), Notify.HtmlFrag (htmlfrag.go) and
--     Notify.Flow (notify.go: Prepare, Dispatch and Process).
-- Shared: Prelude (lists, strings, integers, dictionaries, float64) and Decimal (strconv.Itoa and
-- Atoi). Examples holds values and runs.
--
-- The surroundings of a run are parameters: the answers of client.Run, curl, json.Unmarshal, the
-- drivers and the command-line tools (records named ...Calls, and Inspect.Gather.Outside; an error is a
-- Failure, with what errors.Is and errors.As find in it); the outcome of flock beside the lock itself
-- (Lock.Surroundings), where the kernel grants the lock exactly when no other instance holds it; the
-- clock, sha256, reading the HTML file, whether the mail is sent, and which of the file system's calls
-- in SaveState succeed (Notify.Flow.World); the environment and its variables (Config.Env.Env); the
-- configuration file as it is found and unmarshalled (Notify.Config.ConfigFile). A time is a number of nanoseconds; a difference of times
-- saturates at the bounds of int64 as time.Sub does, and integers wrap where the source adds or
-- multiplies. A map is an association list; the loop over the map of services runs in its order. All
-- loops are structural recursion, so there is no fuel.
--
-- Not modelled: the calls themselves over SSH, HTTP, TCP and the drivers, with their timeouts and
-- options; the SSH client and the loggers of probes; the HTML templates and the file output; composing
-- and sending a mail, which is go-mail's; JSON, which is encoding/json's; flags, exit codes and messages
-- on stderr; and the struct RedisCluster, which nothing uses.
pub mod Prelude
pub mod Decimal
pub mod Model
pub mod Config
pub mod Collector
pub mod Lock
pub mod Checker
pub mod Notify
pub mod Inspect
pub mod Examples
