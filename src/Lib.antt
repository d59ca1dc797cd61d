-- ===== src/Lib.antt =====
-- Verification of the logic of usezombie's TypeScript clients: the command line client
-- (agentsfleet/src) and the dashboard (ui/packages/app).
--
-- Both clients send requests to the daemon and repeat those that failed, and both follow the
-- events of a zombie as a stream of server-sent events. The dashboard keeps the streams of its
-- pages in a registry and folds their frames into a timeline. Prelude and Json hold what all parts
-- share: texts as lists of code units, Boolean tests, and JSON values.
--
-- Http models one request (agentsfleet/src/lib/http.ts: apiRequest, authHeaders), with the
-- response of the network, the clock of the timeout and JSON.parse as parameters. Retry models
-- agentsfleet/src/lib/http-retry.ts: a request is a function of the number of the attempt, a
-- random number is a numerator over a denominator, the hooks and sleeps are a trace. The loop runs
-- on fuel, one unit for each attempt that the configuration allows, and each round makes one
-- attempt. Retry/Dashboard models the dashboard's copy (ui/packages/app/lib/api/retry.ts,
-- client.ts, errors.ts), and Retry/Dashboard/Parity and Retry/Dashboard/Replies are about the two.
--
-- Sse/Frame and Sse/Stream model agentsfleet/src/lib/sse.ts (parseSseFrame, streamGet): the stream
-- is a list of decoded chunks and an ending. The inner loop has one unit of fuel more than the
-- buffer has code units, and each round takes at least two of them away. Sse/Post models
-- agentsfleet/src/lib/stream-fetch.ts.
--
-- Timeline models ui/packages/app/lib/streaming/zombie-stream-frames.ts as functions on the list
-- of events. Registry/State, Registry/Operations and Registry/Outbox model
-- ui/packages/app/lib/streaming/zombie-stream-registry.ts: one zombie id, with the event sources
-- and timers that are pending as part of the state, and each callback as an operation.
-- Registry/Reachable has the steps of the browser, Registry/Exchange those of a conversation. A
-- closed event source delivers no event, and a cleared timer does not fire. A subscription is
-- released once.
--
-- Cli holds what the commands share. Cli/Errors is the error type of
-- agentsfleet/src/errors/index.ts with its exit codes, and the errors that services/http-client.ts
-- makes of a failed request; Cli/Effects is the outcome of a command and the exit code of the
-- process (lib/run-effect.ts). Cli/Store is the disk: the credentials and the list of workspaces
-- (lib/state.ts, services/credentials.ts, services/workspaces.ts), where a file is missing, no
-- JSON, unreadable or holds a value, and a list says what becomes of each write, which may
-- succeed, fail, or fail with the file cut. A command is a function from the disk to a result and
-- the disk. Cli/Guards and Cli/Validators are the checks that a command begins with, Cli/Options
-- the parsers of its options (program/validators.ts), with exact numbers where the source has
-- floating-point ones, and Cli/Argv is the warning about a token on the command line (lib/argv-
-- redact.ts); Cli/Hoare and Cli/Triples are rules for proofs about commands.
--
-- Workspaces models agentsfleet/src/commands/workspace.ts, and Workspaces/Hydration the list that
-- a login fetches (commands/login-helpers.ts). Login models the prompts and the verification loop
-- of commands/login-device-flow.ts over the list of the lines that are typed, and Login/Flow the
-- whole login of commands/login.ts with login-helpers.ts and lib/me-ping.ts. Auth models
-- commands/auth.ts, Vault commands/zombie_credential.ts with the requests that it sends, Memory
-- commands/memory.ts, Install lib/load-skill-from-path.ts and commands/zombie_install.ts over a
-- file system that is a parameter, and Telemetry services/telemetry/identity.ts and consent.ts.
--
-- Billing/Dashboard and Billing/Cli model the grouping of charges (groupCharges.ts of the
-- dashboard's billing page, agentsfleet/src/commands/billing.ts).
--
-- Token models agentsfleet/src/program/auth-token.ts, with base64 and JSON.parse as parameters.
-- Steer/Command is one turn, the read loop and the command of commands/zombie_steer.ts and
-- lib/repl.ts. Steer, Steer/Tail and Steer/Completion model the frame callback, the tail and the
-- polling of agentsfleet/src/commands/zombie_steer_events.ts: the answers, their times and the
-- aborts are functions of the number of the poll. The loop has 41 units of fuel, since a round
-- takes at least 1.5 seconds of the minute that it has.
--
-- Numbers are natural numbers where the source has non-negative integers; they are not bounded by
-- 2^53. Upper and lower case are those of ASCII. Not modelled: the Zig daemon and runner, React
-- components, printing, the declarations of the command tree, the events of the telemetry, the
-- website, and the parts of the clients that only build paths or pass arguments on.
pub mod Prelude
pub mod Json
pub mod Cli
pub mod Http
pub mod Workspaces
pub mod Retry
pub mod Sse
pub mod Timeline
pub mod Registry
pub mod Login
pub mod Billing
pub mod Token
pub mod Memory
pub mod Auth
pub mod Vault
pub mod Telemetry
pub mod Install
pub mod Steer
mod Tests
