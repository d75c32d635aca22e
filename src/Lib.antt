-- ===== src/Lib.antt =====
-- The main process of the desktop application in apps/desktop: the parts that decide what runs on
-- the user's machine.
--
-- The program. The cloud sends commands over a socket. CloudCommandExecutor
-- (apps/desktop/src/main/cloud-command-executor.ts) acknowledges them, queues them, runs them against
-- the local gateway with a limit and with locks, turns the gateway's answer into numbered events, and
-- keeps these until the cloud has acknowledged them. JobStore (job-store.ts, beside it) holds the
-- loops that run on the machine and the last hundred that ended. The gateway asks the user before a
-- risky operation: approval-operations.ts names the operation of a path, approval-policy.ts says
-- whether it is approved by itself, approval-store.ts holds the open questions and the promises that
-- wait for their answers. Where the server asks for it, a command runs only if
-- command-signature-verifier.ts accepts its signature. Apart from these, a nightly job compares the
-- estimated cost of the models with what their vendors billed: cost-math.ts has its arithmetic,
-- reconciliation-store.ts its results. And loop-heartbeat.ts tells the server that a loop lives and
-- finalizes its job when the server says that it is over, by loop-status-classifier.ts and the gate
-- of loop-404-gate.ts. A loop's runner token is kept encrypted by loop-token-store.ts, renewed by
-- loop-refresh.ts, and the timers of its heartbeat and its refresh belong to
-- loop-scheduler-context.ts. The public keys that may sign commands stand in a file that
-- authorized-command-key-store.ts reads and writes. Around the gateway, outbound-url-policy.ts and
-- security.ts (apps/desktop/src/server) say which URLs may be fetched and which paths be touched,
-- gateway-recovery.ts restarts a gateway that is down, spawn-retry.ts repeats a spawn, and
-- queue-stats-debounce.ts gathers the numbers of the queue. When the application starts,
-- boot-recovery.ts looks after the loops that still run and sweeps the tokens of the others.
--
-- The files.
--   Base       texts as UTF-16 code units, JavaScript's Map as a list of entries in insertion order,
--              lists and tests on native numbers.
--   Json       the values that JSON.parse returns, and asRecord, asNonEmptyString.
--   Executor   State: the records. Keys: validateCommand, deriveLockKey, getSignatureBodyOverride.
--              Emit: emitTrackedEvent, markTerminal, acknowledge, replayFrom. Prune:
--              pruneTerminalCommands. Schedule: schedule, setConnected, execute up to its first
--              await. Calls: enqueue, cancel, dispose, the timer. Stream: consumeStreamResponse.
--              Settle: executeViaGateway from the response on, execute from its await on. Steps: any
--              interleaving of calls and continuations. The other children hold proofs.
--   JobStore   the constructor, upsert, the queries, reconcile and persist.
--   Approvals  Policy, Store and Operations model the three files; Index, Waiters and Clear hold
--              proofs about the store.
--   Signing    Stringify: stableStringify, canonicalQuery, hashCommandBody. Verifier: verify,
--              pruneSeenNonces, isSignaturePayload. Window, Freshness and Canonical hold proofs.
--   Cost       Rows: ReconciliationStore. Money: cost-math.ts. Order, Upsert, Rounding and Sums hold
--              proofs.
--   Heartbeat  Classifier, Gate and Tick model the three files; Guarantees and Stranded hold proofs.
--   Loops      Tokens: LoopTokenStore and parseJwtExpiry of jwt-utils.ts. Refresh: attemptRefresh and
--              refreshLoopToken, as actions on the token store and the gate. Retry:
--              withTokenRefreshRetry. Flights: refreshLoopTokenSingleflight beside the refreshes
--              that runRefreshTick begins itself, with its proof. Timers: LoopSchedulerContext. The
--              other children hold proofs; Reach has the steps of the timers in any order.
--   Keyring    Formats: the patterns and normalizeStoredKey. File: readFile, writeFile and
--              isAuthorizedKeysFile. Store: the operations of AuthorizedCommandKeyStore. The other
--              children hold proofs.
--   Outbound   Hosts: the patterns of hosts and the classes of addresses. Policy:
--              validateOutboundUrlForSurface. Allowed and Health hold proofs.
--   Sandbox    Paths: isPathAllowed, with expandHomePath of apps/desktop/src/shared/path-utils.ts and
--              sandbox-policy.ts beside it. Inside holds the proofs.
--   Recovery   Gateway: GatewayRecoveryManager and any order of its events. Epochs: proofs about it.
--              Spawn: retrySpawn. Debounce: createQueueStatsDebounce. Both with their proofs.
--   Boot       Status: the state, and getCloudLoopStatus of
--              apps/desktop/src/server/operations/loop-http.ts. Reconcile: reconcileCloudLoopStatus.
--              Reattach: reattachLiveJob. Candidates: buildRecoveryCandidates and
--              sweepOrphanedTokens. Final, Settled, Recovered and Sweep hold proofs. It works on the job
--              store, the token store, the classifier and the timers of the modules above.
--
-- State. Each class is a record of its fields, a method a function from the record to the record,
-- and its result where it has one. What a method sends or tells its callbacks is appended to a list
-- in the record (`sent`, `settled`, `counts`, `announced`). A continuation after an `await` is a step
-- of its own, with the data of its closure as arguments.
--
-- The refresh of a token, whose writes to the store can throw, is an action: from a world (the store
-- on disk, the gate, the requests sent, the number of random keys drawn) to a result, or none where
-- the code throws, and the world after it. A request carries the memory as it was when it was sent,
-- and the server may change it before it answers: what other parts of the program do during the
-- wait.
--
-- Fuel. Two loops are on fuel. In `schedule` each round takes a command off the queue, so the length
-- of the queue is enough. The search for the nearest directory that exists goes to shorter and
-- shorter paths, so the length of the path is enough. All other recursion is structural.
--
-- Parameters. The clock, random ids, digests, the check of an Ed25519 signature, JSON.parse, the
-- printing of numbers, localeCompare, the verdict on a signature as `enqueue` sees it, the gateway's
-- and the server's replies, encryption, base64, the URL parser, net.isIP, and the file system with
-- node:path come in as arguments.
--
-- Not modelled: the HTTP request itself, abort controllers beyond the message that they abort, log
-- lines and telemetry, the sort of listPending by localeCompare, the handler of the system's
-- resume event, isRiskyAllowedDirectory, the finalization of jobs with its tailers and watchers,
-- and the rest of the application (windows, settings, collectors, packs, the cloud socket, the
-- gateway's operations). Money is modelled where it is a whole number of micro-cents, not where it
-- is a floating-point number of dollars.
pub mod Base
pub mod Json
pub mod Executor
pub mod JobStore
pub mod Approvals
pub mod Signing
pub mod Cost
pub mod Heartbeat
pub mod Loops
pub mod Keyring
pub mod Outbound
pub mod Sandbox
pub mod Recovery
pub mod Boot
