-- ===== src/Lib.antt =====
-- Sonic Watchtower: the monitoring daemon of a SONiC switch. It polls the counters of the switch,
-- compares them with baselines, reports what it finds to the journal, to syslog and to a banner,
-- and shares events and findings with the daemons of the neighbouring switches.
--
-- The parts, with the code that each file models (paths below watchtower/):
--   * Prelude: what of Python the program uses: lists, dicts (Prelude/Dict), methods that may
--     raise (Prelude/Exec), floats as an interface (Prelude/Float), readings of the clock
--     (Prelude/Clock), texts (Prelude/Text).
--   * Config (config.py): the dataclasses with their defaults; Config/Merge has
--     `_merge_dataclass` and `load_config` on untyped values.
--   * Collectors (collectors): one file for each collector; the loop that they share is `gather`.
--   * Store (store/journal.py, store/schema.sql): the tables of the journal as lists of rows,
--     with the CHECK and UNIQUE constraints, and `prune`. Store/Events (store/events.py),
--     Store/Findings (store/findings.py), Store/Baselines (store/baselines.py), Store/Topology
--     (store/topology.py) and Store/Peers (peer/state.py) have one function for each method; a
--     SELECT is a filter and a sort, an UPSERT a walk of the rows. Store/Migrations opens the
--     journal of an older version (store/journal.py).
--   * Governor (governor.py): the states of operation and `update` on a snapshot of the
--     resources; Governor/Reading has the reading of /proc.
--   * Analyzers/Compare (analyzers/baseline_compare.py), Analyzers/Diff
--     (analyzers/topology_diff.py), Analyzers/Correlate (analyzers/peer_correlate.py).
--   * Report (llm/fallback.py): the templates of findings.
--   * Output/Syslog (output/syslog_emitter.py), Output/Banner (output/banner.py).
--   * Cli (cli/main.py): the commands of `watchtower show`, as what they echo.
--   * Peer (peer): the state of `PeerManager`. Peer/Seen is its bounded set of seen ids,
--     Peer/Calls its outgoing calls, Peer/Handlers its handlers (peer/__init__.py), Peer/Discovery
--     peer/discovery.py, Peer/Server the interface of a handler with the servicer that turns its
--     exceptions into refusals (peer/server.py), Peer/ClientCalls the calls of peer/client.py
--     against the servicer over `PeerManager`, and Peer/Network a network of switches, with its
--     steps and its reachable states.
--   * Daemon (main.py): the daemon's state over the parts above. Daemon/Collecting has the calls
--     of the collectors, Daemon/Checks `_handle_anomaly` and `_check_optic_health`, Daemon/Changes
--     `_check_bgp_changes` and `_check_link_changes`, and Daemon/Cycle `_poll_cycle`, step by step;
--     Daemon/Loop is `run` with its sleeps and signals, and Daemon/Starting `main`.
--     Daemon/Invariant has the states that a daemon reaches by its cycles, by the messages of
--     peers and by restarts.
--   * Examples: runs at concrete data.
--
-- How they interact: the stores are operations on one `Store`, which the analyzers read and update.
-- The manager of the peer protocol holds the store and the governor, as the Python objects share
-- them; a handler is an operation on the manager that may raise, and what was written before a
-- raise stays written. The calls to peers are collected in the manager's `outbox`.
--
-- Bounds and fuel. Every loop of the program is over a list, and is recursion on that list. The one
-- fuel is that of the decimal digits of a number n (Prelude/Text): n + 1 rounds, of which each
-- divides by 10. Integers of Python are unbounded; times are seconds as natural numbers, and the
-- text forms of a time are fields of `Moment`, since the program's text forms have one width and
-- order as the times do. A time to live is a natural number: the protocol's field is signed, and
-- the program treats a negative one as it does 0.
--
-- Floats are a parameter, `Float F`, with no law; what some theorems need of the order is their
-- hypothesis `IsOrdered`, which the numbers of IEEE 754 satisfy, NaN included.
--
-- Texts. `split`, `strip`, `upper` and `int` read ASCII; `int` refuses a minus sign, which no
-- counter has. A text that YAML or a regular expression would read in another way is not told
-- apart.
--
-- Not modelled: Redis, of which a database is a pair of functions that answer or raise; YAML, of
-- which the value of a file is an argument; SQLite itself, of which the tables state what the
-- schema and the statements say; gRPC and TLS, whose outcomes are arguments; the options that
-- click parses; the passing of time within one cycle, which has one reading of the clock; a round
-- of the loop is given the seconds that its cycle takes, and whether and when a signal arrives in
-- it. The threads of gRPC run handlers beside the cycle: here each handler and each cycle is one
-- step.
pub mod Prelude
pub mod Config
pub mod Store
pub mod Governor
pub mod Analyzers
pub mod Cli
pub mod Collectors
pub mod Report
pub mod Output
pub mod Peer
pub mod Daemon
pub mod Examples
