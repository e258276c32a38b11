-- ===== src/Lib.antt =====
-- Vigilant (Port Sentinel), the Python backend under backend/: a packet sniffer writes per-port
-- byte counters to signed shared memory; the dispatcher reads them, turns them into rates, keeps a
-- window of snapshots, and hands each snapshot to the policy engine, whose events reach the
-- handlers through an event bus. A scheduler runs the periodic jobs, and a middleware limits the
-- rate of requests.
--
-- Base holds what the other files share. Python's dict is an association list in insertion order
-- (Base.Dict), sorted() a stable insertion sort (Base.Sort), str.lower() works on ASCII
-- (Base.Text). A time is a whole number of ticks of 2^-22 seconds (Base.Time), which is exact for
-- float64 times of 2004 to 2038. Rates are values of a type F with the operations of Base.Floats,
-- so nothing rests on how floats round. A call of time.time() becomes an argument, one reading for
-- each call, and nothing is assumed of the readings unless a theorem says so. Numbers that the
-- program takes from unsigned fields, and counts of seconds, are natural numbers. No function is
-- on fuel but the digits of a number (Base.Text), which has one unit for each digit and more.
--
-- Domain (backend/domain/): Snapshot and Metadata are the values that the parts exchange
-- (PortSnapshot of application/services/metrics_service.py); Events is events/events.py; Risk is
-- value_objects/network.py; Approval and Rule are entities/approval.py and entities/rule.py; Policy
-- is policies/engine.py, with the engine's state, its clock readings and its callback passed on.
--
-- Metrics (backend/application/services/metrics_service.py): Delta is PortMetrics, with counters
-- modulo 2^64; Window is SlidingWindowCache, its deques lists with the oldest entry first;
-- Accumulator is TrafficAccumulator, with the process table and the threat service as parameters.
--
-- Sniffer (backend/core/sniffer.py): Memory and Bits are the byte operations; Entry is the packed
-- entry, with HMAC-SHA256 and the address conversions as the parameter Platform; Shm is the writer
-- and the readers; Capture is packet_callback, _build_pid_map and _flush_to_shm of SnifferProcess.
-- Shm/Contents says what it is for the memory to hold a map from ports to entries. The capture
-- loop itself, the mock traffic that it adds, and the start of the process are not modelled.
--
-- Bus (backend/application/events/bus.py): event types and handlers are compared for equality; a
-- call of a handler changes a world and may raise. Jobs (backend/application/jobs/scheduler.py):
-- how each call of a job ends is an argument. Middleware
-- (backend/presentation/middleware/security.py) is the rate limiter. Plugins (backend/plugins/) is
-- the registry; whether a plugin's start or stop returns is an argument.
--
-- Watchdog (backend/core/watchdog.py) is one pass of the monitoring loop, with the environment of
-- the watchdog as an argument, and the environment of the backend that it starts. The sleep, the
-- start of the process and what then runs in it are not modelled: nothing starts a watchdog there.
--
-- Database (backend/core/db.py and models.py): SQLAlchemy is the parameter Engine, with what its
-- documentation says of tables, queries and orders as laws; Tables has the rows, and History,
-- Stores, Audit and Approvals the methods of SQLiteDB. Its calls do not fail. The connection,
-- save_dashboard_layout (which always raises), the aggregations get_top_talkers and
-- get_global_traffic_stats, and the writer to InfluxDB are not modelled.
--
-- Commands (backend/application/): World is what the container gives the handlers, with a bridge to
-- the firewall (backend/os_adapters/base_bridge.py) whose calls may raise; Handlers is
-- events/handlers.py, Firewall and Requests are commands/firewall.py and commands/approvals.py.
-- They publish on the bus of Bus, with the handlers of events/handlers.py registered.
--
-- Dispatcher (backend/infrastructure/network/dispatcher.py) is one pass of the loop: it composes the
-- reader of Sniffer.Shm, TrafficAccumulator, the policy engine and the bus. The snapshot is shared
-- between the pass and the history, so an assignment to it changes the history too.
--
-- Bridges/Linux (backend/os_adapters/linux_bridge.py): a command is a parameter that changes a
-- firewall. Listing reads the numbers of rules from text. The laws of iptables are hypotheses: in
-- IsIptables (Rules), where each speaks of a command by the code that it exits with, in CanDelete
-- (Removal), and in Deletes and IsListing (Cleanup). Bridges/Windows (win32_bridge.py) has
-- the laws of netsh in IsNetsh (Rules); Removal is unblocking and cleanup. Bridges/Darwin
-- (darwin_bridge.py) keeps rules in memory and in a file: Disk says how a write, a reading and the
-- removal of it end, whole or with an exception. Parsing and Printed are its lines, Reading what
-- comes back from it, Calls the calls of a process, and Restart what the next process finds.
-- Bridges/Ports is the list of ports that the bridges make from psutil; Darwin/Lsof reads lsof.
--
-- Threats (backend/core/threat_intel.py): the cache of metadata, with the answers of the web service
-- as arguments; a call and a fetch are one step each, and Holding and Freshness take them in any
-- order.
--
-- Queries (backend/application/queries/threats.py): Geo is handle_geo and handle_countries, Timeline
-- is handle_timeline. They read the accumulator of Metrics and call the threat service, whose state
-- they pass on; a float literal is a parameter applied to its digits.
--
-- Container (backend/container.py): the jobs that it registers act on the accumulator of Metrics and
-- on the database; Flush and Pass are what they do, Shutdown is what a shutdown leaves.
--
-- Each call of an object is one step, as its lock makes it. The dispatcher's loop and websocket, the
-- processes that the bridges describe, and the dashboard are not modelled; nor are settings,
-- logging, the web API and the user interface. Tests holds the theorems at concrete inputs.
pub mod Base
pub mod Bridges
pub mod Bus
pub mod Commands
pub mod Container
pub mod Database
pub mod Dispatcher
pub mod Domain
pub mod Jobs
pub mod Metrics
pub mod Middleware
pub mod Plugins
pub mod Queries
pub mod Sniffer
pub mod Threats
pub mod Watchdog
pub mod Tests
