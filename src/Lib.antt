-- ===== src/Lib.antt =====
-- Klever Node Hub: a dashboard that manages the nodes of validators, and the agents on their hosts.
--
-- The agents connect to the dashboard over WebSockets. Each upgrade is authenticated, the connection
-- is entered into the hub, commands go out through the hub and their results come back to the request
-- that waits. Metrics that arrive are judged by the alert evaluator, which keeps the state of each
-- rule and target, writes alerts into the database and sends notifications through the manager. An
-- operator logs in with a password, a recovery code or a wallet, and then holds signed tokens. An
-- agent checks each command against its list before it calls Docker.
--
-- - Prelude: Boolean tests, lists over the native numbers, Go's maps as association lists.
-- - Auth/RateLimit: internal/auth/ratelimit.go, the limiter of failed logins (Allow, RecordFailure,
--   Reset, pruneExpired).
-- - Dashboard/Registration: internal/dashboard/registration.go, one-time tokens (Generate, Validate,
--   PendingCount, cleanExpired).
-- - Store/Alerts: internal/store/alert_store.go, the table of alerts as a list of rows, one function
--   for each statement; Store/Alerts/Active has the rows that stand for active alerts.
-- - Notify/Alert and Notify/Manager: internal/notify/notify.go, alerts, channels, filters, history.
-- - Alerting/Rules and Alerting/Process: internal/dashboard/alerting/evaluator.go, processResult and
--   all that it calls, and resolveStaleAlerts. Float64 is a type with operations (`Numbers`).
-- - Ws/AgentAuth: internal/crypto/wsauth.go, and authenticateAgent and rememberNonce of
--   internal/dashboard/ws/agent_handler.go. Ed25519 and base64 are operations (`Primitives`).
-- - Ws/Hub and Ws/Commands: internal/dashboard/ws/hub.go, the agents' connections on a heap, the
--   health check, and the commands that wait for a result.
-- - Dashboard/Monitor: internal/dashboard/klever/monitor.go, the window of blocks, the elections and
--   the missed signings of validators, and their timelines.
-- - Store/Rules: the table of rules in internal/store/alert_store.go; Alerting/Defaults: the built-in
--   rules of internal/dashboard/alerting/defaults.go, with EnsureDefaults and migrateRules.
-- - Alerting/Evaluate: the evaluation of a rule for nodes and servers in evaluator.go.
-- - Alerting/Hydrate: hydrateFromDB of evaluator.go, the restart.
-- - Store/Settings: internal/store/settings_store.go, with the heartbeat timeout.
-- - Store/Metrics: internal/store/metrics_store.go, the raw and archived rows of metrics, Decimate,
--   Purge and the queries.
-- - Alerting/Evaluate/Round: the rules on the metrics of servers, and one round of evaluate.
-- - Store/Versions and Alerting/Regression: internal/store/version_history_store.go and
--   internal/dashboard/alerting/regression.go, which compares metrics before and after an upgrade.
-- - Auth/Jwt: internal/auth/jwt.go, login tokens; base64, JSON and HMAC are operations (`Codec`).
-- - Auth/Recovery: internal/auth/recovery.go, recovery codes; Argon2id is an operation (`Codes`).
-- - Auth/Klever: internal/auth/klever.go, login by the signature of a wallet; Auth/Klever/Address
--   decodes its bech32 address, with the 32-bit accumulator of convertBits.
-- - Dashboard/Version: the comparison of releases in internal/dashboard/version_checker.go.
-- - Agent/Whitelist and Agent/Executor: internal/agent/whitelist.go and Execute of
--   internal/agent/executor.go; Docker and the other handlers are answers of a `Host`.
-- - Agent/Images: internal/agent/image_cleanup.go.
--
-- A method becomes a function from the state before to the state after and the result. A mutex makes a
-- method one step; where the code gives it up in between, the steps stand apart (Ws/Hub `send_to`
-- and `check_heartbeats`, Ws/Commands), except between the slices of Decimate. Times are natural numbers, nanoseconds unless a file says otherwise, and a method
-- reads the clock once. A duration is not bounded as an int64 is, so that a rule's duration or cooldown
-- of centuries does not wrap. The length of a nonce is counted in characters, and the only white space
-- that a scanned number may follow is the space. Whether a database statement succeeds is an argument (`io`). The loops of
-- Decimate and of the purges run on fuel, one more round than there are rows, since each round but
-- the last removes a row. The inner loop of convertBits may run once for each bit that it holds.
-- All other loops go over lists or count down a number that is known before.
--
-- Not modelled: HTTP, SQL and WebSocket transport, logging, marshalling, the agent's calls of Docker
-- and of the host, and the cryptography, which is a parameter where a property needs it.
pub mod Prelude
pub mod Auth
pub mod Dashboard
pub mod Store
pub mod Notify
pub mod Alerting
pub mod Ws
pub mod Agent
