-- ===== src/Lib.antt =====
-- Cage runs sandboxes for API clients. An HTTP server (internal/api) keeps a record of each sandbox
-- in Postgres (internal/store) and drives an isolation backend (internal/backend), the Docker one
-- (internal/sandbox) or the Firecracker one (internal/firecracker), whose microVMs run an agent
-- (guest-agent). A warm pool (internal/pool) creates sandboxes ahead of requests, a reaper
-- (internal/reaper) removes expired ones, and a reconciliation at start (internal/reconcile)
-- removes records whose sandbox is gone; replicas elect one of them by a lock in Redis
-- (internal/lock).
--
-- Which file models which part:
-- - Backend: internal/backend/backend.go. The interface is a record of operations over a state B of
--   the backend's own; an optional interface is a field that may be absent.
-- - Docker/Client, Docker/Stream, Docker/Manager, Docker/Shell, Docker/Adapter: internal/sandbox,
--   docker_client.go, stream.go, sandbox.go, shell.go and adapter.go. Docker/Manager/Laws holds
--   what the daemon is documented to do. Docker/Adapter.backend is the adapter as a Backend.
-- - Store: internal/store, store.go and util.go, one function per SQL statement.
-- - Redis and Lock: the Redis commands and scripts that internal/lock/lock.go sends.
-- - World: the state that the server's parts share. Each part acts on its field by on_backend,
--   on_db or on_redis.
-- - Pool: internal/pool/pool.go. Reaper: internal/reaper/reaper.go. Reconcile:
--   internal/reconcile/reconcile.go.
-- - Api and its children: internal/api/handlers.go.
-- - Auth: internal/cache/cache.go and the guards internal/api/middleware.go, auth_middleware.go and
--   metrics_auth.go, with the key's hash as a parameter. Auth/Keys: internal/auth/auth.go and
--   cmd/genkey/main.go.
-- - Firecracker: internal/firecracker. Host is the machine that the package runs on; Client, Rootfs
--   and Vsock are client.go, rootfs.go and vsock.go, Manager and its children manager.go, Polling
--   the waiting loops of vsock.go and manager.go, Frames and Shell shell.go, Network network.go.
-- - Guest: guest-agent/main.go, the shell connection from the host to the PTY, in Output from the
--   PTY to the host, and, in Control, the JSON requests.
-- - Server: cmd/cage/main.go, the routes over the guards and the handlers; Server/Start: run and
--   main, from the configuration to the exit status.
-- - Sdk: sdk/go. Cli: the credentials of cli/cmd, its commands in Commands and the terminal's side
--   of a shell in Shell. Tui and its children: cli/tui, a state machine over the messages of its
--   library.
-- - Config: internal/config/config.go.
-- - RateLimit: internal/ratelimit/ratelimit.go and internal/api/ratelimit_middleware.go.
-- - Common: Go's maps, results, readers and byte orders. Examples: the theorems at concrete inputs.
--   Proofs stand in child modules named for what they prove.
--
-- How the code is read. A function that returns an error and acts on shared state is an action, S →
-- Result E A × S; a handler's error is the response with which it returns early. Names are the
-- source's, in snake case. A Go string is a string, whose length counts UTF-8 bytes; times and
-- durations are natural numbers on one clock, in the unit that a file's comments name. Logs, and
-- closing readers and connections, are left out. Contexts are not cancelled.
--
-- Outside code. The Docker SDK (DockerClient), archive/tar (Tar) and google/uuid's Parse
-- (uuid_parse), SHA-256 and random bytes (sha256, random), a key's hash (hash_key) and the host's
-- ip and iptables commands (run) are parameters, and so are the machine that runs the microVMs
-- (Host), JSON at the types that it carries (Codec, the decoders of Transport), the widgets of the
-- terminal interface, what chi answers where no route matches, the end of a websocket handshake,
-- and what the server's start connects and serves (Machinery). SQL statements and Lua scripts are
-- strings of the source, translated to functions on tables and on keys with an expiry. A statement
-- or a command that fails changes nothing; `outage` says which ones fail and is arbitrary. Where a
-- handler quotes a value with %q or prints an error's text, the response holds the value or the
-- error itself; JSON is not written out. A wrapped error has the source's text without the values
-- that it quotes.
--
-- Loops. A range loop is recursion on its list. Take is recursion on the channel's content: sends
-- of other goroutines during one Take are not interleaved with it. demux_loop and top_up run on
-- fuel; demux_output gives one more than the bytes left, which is always enough, and top_up's fuel
-- is related to the free places by its theorems. poll_for gives one round more than the timeout
-- holds periods, which is always enough. A shell's loops take at least a header in each round.
-- Handlers run one after another: between two steps of one handler no other handler acts, but for
-- the check of an API key, between whose calls time may pass; so do the calls of a
-- FirecrackerManager. The loops of a shell session are interleaved by a list of events.
--
-- Not modelled: the parts that open connections, start goroutines and timers or only log, metrics
-- other than the pool's and the reaper's counters, the migration library's calls, what cobra makes
-- of the command line, how the terminal interface draws, the trial program cmd/fctest and the
-- examples.
pub mod Common
pub mod Config
pub mod Backend
pub mod Docker
pub mod Store
pub mod Redis
pub mod Lock
pub mod World
pub mod Pool
pub mod Reaper
pub mod Reconcile
pub mod Api
pub mod Auth
pub mod RateLimit
pub mod Firecracker
pub mod Guest
pub mod Server
pub mod Sdk
pub mod Cli
pub mod Tui
pub mod Examples
