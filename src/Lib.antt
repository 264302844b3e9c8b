-- ===== src/Lib.antt =====
-- A verification of the backend of astron-claw, a bridge between chat clients (HTTP, server-sent
-- events) and bots (WebSocket, JSON-RPC): several workers share one Redis server, a bot is
-- connected to one worker, and a chat request may arrive at any.
--
-- Parts and files (paths from the repository's root):
-- - Keys: the Redis keys of backend/internal/service/bridge.go, as texts.
-- - ParseInt: strconv.ParseInt in base 10 to 64 bits, as the cross-worker guard reads generations.
-- - Redis: the commands that the backend issues, as a record over an unknown server state. The
--   server is no code of the repository: Redis/Laws states the documented effect of each command,
--   and Redis/Memory, with Redis/Memory/Lawful, is a concrete server for the tests.
--   Every command may fail unless a theorem assumes that it does not (Reachable, Readable).
-- - Ring: the reconcile ring of backend/internal/service/bridge_reconcile.go:
--   trackReconcileToken is `track`, untrackReconcileToken is `untrack`, nextReconcileBatch is
--   `next_batch`. Its children: Invariant, Membership, Batch, Fairness.
-- - Bridge: ConnectionBridge of backend/internal/service/bridge.go. RegisterBot is
--   `register_bot`, UnregisterBot is `unregister_bot`, evictLocal is `evict_local`,
--   shouldSkipSharedCleanup is `should_skip_shared_cleanup`, cleanupSharedBotState is
--   `cleanup_shared_bot_state`. The state of a worker is the record `Bridge`; `World` adds
--   the server. An operation is one step, so an interleaving of workers is a sequence of
--   operations over one server; UnregisterBot gives its lock back before it reads and cleans
--   Redis, and the model takes its two halves together. Its children: Local (agreement of
--   the local tables), Shared (the records in Redis), Register, Unregister, Handover, and
--   Overlap, a registration in the middle of an eviction that takes no lock.
-- - Alive: the heartbeat, the expiry and the readers of the set of alive bots, in bridge.go,
--   token_manager.go and bot_status_monitor.go of backend/internal/service.
-- - Event: TranslateBotEvent of bridge.go over JSON values; json.Marshal is a parameter.
-- - Stream: the loop of chatSSE in backend/internal/router/sse.go. What a round finds (a closed
--   channel, the clock, what Queue.Consume returns) is an argument, a `Tick`; json.Unmarshal is a
--   parameter. Its children: Frames, Replies, Ending, Runs, Idle.
-- - Chat: chatSSE of sse.go up to its stream, with the answers of the parts that it calls as
--   arguments and its effects as a list. Its children: Checks, Refusals.
-- - Messages: HandleBotMessage and sendToSession of bridge.go. Its children: Routing, Delivery.
-- - Reconcile: doReconcile of bridge_reconcile.go. Its children: Tables, Lost.
-- - Dispatch: SendToBot and SendCancelToBot of bridge.go and the worker inbox of
--   bridge_worker_inbox.go. Its children: Acks, Delivery.
-- - Shutdown: Shutdown of bridge.go.
-- - Monitor: BotStatusMonitor of backend/internal/service/bot_status_monitor.go. Its child: Notices.
-- - Cleanup: doCleanup and its lock, cleanupChatInboxes of bridge.go and doArtifactCleanup of
--   bridge_cleanup.go. Its child: Effects.
-- - Text and Json: what the code uses of Go's strings, bufio and JSON values.
-- - Wire: FormatSSEEvent and FormatSSEComment of backend/internal/pkg/sse.go, and the text of a
--   whole stream. Its child: Written, the lines of that text.
-- - Probe: Chat of probe/client/sse.go, which reads such a stream: `read_chat`. bufio.Scanner is
--   modelled with its limit of 64 KiB; json.Unmarshal is a parameter. Its children: Scanning,
--   Reading, Answers. Answers joins Stream, Wire and Probe.
-- - BotLoad: the settings, tokens, batches and clients of backend/cmd/botload/main.go: normalizeConfig is
--   `normalize_config`, resolveWSURL is `resolve_ws_url` over a parser of URLs, and the loop of
--   run is `start_batches` on fuel. Its children: Settings, Batches, and Clients, whose events
--   come in any order, with the child Counters.
-- - Sessions: backend/internal/service/session_store.go over a cache and a database that are
--   parameters, with their documented effects in Sessions/Laws. Spec is the table
--   that the store stands for, Writes and Refines relate the two; Cached is about the lists in
--   Redis, Numbers about the numbers in listings, and Memory is a cache and a database for the tests.
-- - Tokens: backend/internal/service/token_manager.go over a table that is a parameter: Generate is
--   `generate`, Validate is `validate`, Update is `update`, Remove is `remove`. Its children: Laws,
--   Expiry, Memory.
-- - TokenAuth: backend/internal/middleware/token_auth.go, and adminDeleteToken of
--   backend/internal/router/admin.go. Its children: Guard, Carried.
-- - Paging: the list of tokens that is sorted by status, in backend/internal/router/admin.go, with
--   sort.Slice as a parameter. Its child: Pages.
-- - AdminAuth: backend/internal/service/admin_auth.go over a table, a Redis server and hashes that
--   are parameters, and the handlers of backend/internal/router/admin_auth.go. Its children: Laws,
--   Password, Sessions, Handlers, Memory.
-- - Migrate: RunMigrations and waitForMigration of backend/internal/infra/migrate.go, over a
--   migrator and a server that are parameters. Its child: Waiting.
-- - Queue: backend/internal/service/queue.go over the commands on Redis streams, which are
--   parameters: Publish is `publish`, Consume is `consume`, EnsureGroup is `ensure_group`, Purge is
--   `purge`. Its children: Laws (which entries wait for a group), Usage (calls in any order),
--   Traffic, Fresh, and Memory, a server of streams for the tests.
-- - Removal: RemoveBotSessions of bridge.go. Its children: Removed, Deletion.
-- - Api: handlers of sessions, tokens and health in backend/internal/router/ (sse.go, tokens.go,
--   admin.go and health.go). Its children: Created, Limits.
-- - WebSocket: wsBot of backend/internal/router/websocket.go. Its children: Gone, Ended.
-- - Worker: the operations of a worker as steps, with changes of the server by others in between.
--   Kept says of which changes the operations consist, and serves Invariant and Quiet. Evictions that take
--   no lock may be taken apart there into their deletions.
-- - Media: backend/internal/service/media_manager.go and backend/internal/router/media.go: Store is
--   `store`, rewindForStorage is `rewind_for_storage`, uploadMedia is `upload_media`. Its children:
--   Put, Stored.
-- - Grants: the rights of the database's user and the creation of the database, in
--   backend/internal/infra/database.go: parseGrant is `parse_grant`, hasDatabaseDDLPrivileges is
--   `has_database_ddl`. Its children: Rights, Creation.
-- - Config: backend/internal/config/config.go: Load is `load`, splitCSV is `split_csv`. Its child:
--   Lists. Cors: backend/internal/middleware/cors.go. Its child: Origins.
-- - Tests: the witnesses, which run the theorems at concrete inputs.
--
-- How the parts meet: a chat request passes TokenAuth, then Chat, which asks Bridge for the bot,
-- Sessions for the session and Dispatch for the delivery; Messages and Event turn what the bot
-- sends into events of the session's inbox; Stream reads them and Wire writes them to the client.
-- Reconcile, Alive, Cleanup and Monitor run beside that on each worker. The inboxes are queues of
-- Queue. The deletion of a token goes through Tokens, Removal and TokenAuth. A bot's connection
-- goes through WebSocket, which asks Tokens and gives the connection and its messages to Bridge and
-- Messages; Api hands the other requests to Sessions, Tokens and Alive.
--
-- Bounds: a generation is an integer, and INCR fails where the new value is no int64. Times are
-- whole seconds, but nanoseconds in Tokens, where a product wraps around at 64 bits, as it does in
-- Paging. The loop over a batch of the ring runs at most the batch size, a run of a stream is a list
-- of ticks of any length, and the batches of the load generator need one unit of fuel more than
-- there are tokens.
--
-- Not modelled: logs, traces, metrics and locks; the object storage, the connections to MySQL and
-- Redis and the wiring of the parts, which are calls of libraries; the paged queries of the token
-- table, which MySQL answers; the plugin, the web interface and the deployment files. The stores
-- are taken to be called by one request after another, and no two tokens or session ids to differ in
-- case only, as the tables compare texts without case. Within do_reconcile and take_message an eviction
-- is one step; Worker also takes it apart, and Overlap shows a registration in its middle.
pub mod AdminAuth
pub mod Alive
pub mod Api
pub mod BotLoad
pub mod Bridge
pub mod Chat
pub mod Cleanup
pub mod Config
pub mod Cors
pub mod Dispatch
pub mod Event
pub mod Grants
pub mod Json
pub mod Keys
pub mod Media
pub mod Messages
pub mod Migrate
pub mod Monitor
pub mod Paging
pub mod ParseInt
pub mod Prelude
pub mod Probe
pub mod Queue
pub mod Reconcile
pub mod Redis
pub mod Removal
pub mod Ring
pub mod Sessions
pub mod Shutdown
pub mod Stream
pub mod Tests
pub mod Text
pub mod TokenAuth
pub mod Tokens
pub mod WebSocket
pub mod Wire
pub mod Worker
