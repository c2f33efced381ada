-- ===== src/Lib.antt =====
-- Verification library of the wasmi plugin framework: plugins are WebAssembly guests that a host
-- runs in the wasmi interpreter and speaks to over JSON-RPC on the guest's stdin and stdout.
--
-- Parts, and the files that model them:
--   * crates/wasmi-plugin-hdk/src/wasi/non_blocking_pipe.rs, the in-memory pipes behind the guest's
--     streams: Pipe. Reader and writer share `Inner` behind a mutex, so an operation is one atomic
--     function on `Inner` (`read`, `poll_read`, `write`, `drop_writer`), and an interleaving of both
--     ends is a list of `Op` (Pipe/Fifo). A waker is the number of its task; an operation that
--     wakes returns that number.
--   * crates/wasmi-plugin-hdk/src/wasi/wasi_ctx.rs, the WASI preview 1 calls: Wasi. `WasiCtx` is in
--     Wasi/Context; Wasi/Caller has the state of a call (context, guest memory, fuel) and the monad
--     whose steps go on, return an error number from the call, or panic the host. Wasi/Args has
--     `args_get`, `environ_get` and their sizes, Wasi/FdRead `fd_read`, Wasi/FdWrite `fd_write`,
--     Wasi/Fd `fd_fdstat_get` and `fd_close`, Wasi/Poll `poll_oneoff`, and Wasi/System
--     `clock_time_get`, `random_get`, `sched_yield`, `proc_raise` and `proc_exit`. Wasi/Imports has
--     `add_to_linker`, which defines them under their names.
--     What `poll_oneoff` owes its caller is stated in Wasi/Poll/Asked, by the layout of WASI's
--     subscriptions.
--   * crates/wasmi-plugin-hdk/src/wasi/wasmi.rs: Wasi/Run, `run_wasm` with its slices of fuel, and
--     `spawn_wasm`.
--   * crates/wasmi-plugin-rt/src/lib.rs, the shim over the timers of tokio and gloo: `yield_now` and
--     `sleep` of Wasi/Run, with the branch of each target.
--   * crates/wasmi-plugin-pdk/src/rpc_message.rs: Rpc/Message, the messages and `RpcError` with its
--     codes.
--   * crates/wasmi-plugin-pdk/src/transport.rs: Rpc/Pending, the map of the calls under way and
--     their oneshot channels, and Rpc/Transport, `JsonRpcTransport` with `call`,
--     `process_next_line`, `process_message` and `next_line`. What other tasks and the request
--     handler do to the shared transport is an argument that changes it by the steps of
--     Rpc/Transport/Steps. Rpc/Transport/Polls is `call` as the future that a task polls.
--   * crates/wasmi-plugin-pdk/src/server.rs: Rpc/Server, `Router` and the serving of a line, and
--     Rpc/PluginServer, `PluginServer`. Rpc/OverPipes joins a host's transport and a plugin's server by
--     two pipes, as plugin.rs does.
--   * crates/wasmi-plugin-hdk/src/plugin.rs: Plugin. Plugin/Call has `Plugin` and its `call`, the three
--     futures of which are arguments over the state that they share; Plugin/Join is `futures::join!`,
--     and Plugin/Stderr the task that hands stderr to the logger. Plugin/Running has the futures that
--     `call` makes, with a plugin of Rpc/OverPipes as the guest.
--   * crates/wasmi-plugin-hdk/src/plugin_instance.rs: Plugin/Spawn, `spawn_plugin`, which uses
--     `add_to_linker`.
--   * crates/wasmi-plugin-hdk/src/server.rs and host_handler.rs: Plugin/Host, `HostServer`, with
--     `PluginCallback` of plugin.rs.
--   * crates/test-plugin/src/main.rs: TestPlugin, the plugin that the integration tests run. Its prime
--     sieve is in TestPlugin/Sieve, `many_echo`, a loop of calls on the transport, in TestPlugin/Echo,
--     and `main` with the other handlers in TestPlugin/Main.
-- The calls meet the pipe where the host gives it to the context as stdin, stdout or stderr:
-- Pipe/Stream makes it an instance of the interfaces of Io. Session puts a host and a guest on two
-- pipes, with the calls of both as the steps of a session; the guest's reads there are of one vector,
-- its writes succeed, and it closes neither stream.
--
-- Code that is not in the repository is a parameter. wasmi's linear memory is the interface
-- `GuestMemory` (Memory/Interface), with reads and writes that fail out of bounds, and
-- Memory/Linear is a list of bytes that meets its laws. A stream is an instance of `Read` or
-- `Write` (Io); std's `BufReader`, which wraps stdin, is written out from its documentation in
-- Io/Buffered, and its `read_line` in Io/Lines. The host's clocks and its source of entropy are
-- arguments of the calls. serde_json and the transport's boxed reader and writer are the interface
-- `Wire` (Rpc/Transport); where the reader and writer are pipes, serde_json alone is the interface
-- `Codec` (Rpc/OverPipes). wasmi's resumable calls are the interface `Engine`, and the clock,
-- tokio's `sleep` and `yield_now` and gloo's `TimeoutFuture` the interface `Host` (Wasi/Run). The
-- test whether bytes are UTF-8 is an argument of the stderr task, with the hypothesis that it is
-- true of the lines that the guest writes.
--
-- wasmi's linker is the interface `FuncLinker` (Wasi/Imports), and what starts a guest the
-- interface `Linker` (Plugin/Spawn). The types of WASI preview 1 are written out from its
-- documentation in Wasi/Imports/Types. `join!` and the `BufReader` of futures are written out from
-- their documentation. The square root that the sieve takes in floating point is an argument, with
-- the hypothesis that it is rounded down.
--
-- Not modelled: the compilation of a module (crates/wasmi-plugin-hdk/src/compile.rs), which only
-- calls wasmi, the text of a plugin's id, the default logger, and logging. What the test plugin asks the system for is an
-- argument of it.
--
-- Numbers: a plugin is a 32-bit program; addresses are those of a 64-bit host, `as usize` of a
-- negative `i32` is its sign extension, and address arithmetic wraps at `2 ^ 64`. The loops over
-- vectors, subscriptions and arguments recurse on the number of rounds that the source counts, so
-- no fuel of the model's own is needed. `run_loop` takes fuel for its slices, as a guest may run
-- for ever, and the loops of the transport, which wait for the other side, a round for each line
-- and for each read that would block. A guest that was stopped needs two slices, a call that is
-- answered by the next line two rounds, one in which a plugin answers over pipes after k turns k +
-- 2, a call whose plugin answers in its turn k, by polls, k + 2 polls of a line each, a poll of the
-- stderr task at most three rounds for each byte in the pipe and one for each that is buffered
-- (`work`); the inner loop of the sieve has a round for each number up to the limit and one to
-- spare. Bytes are natural numbers; words of the guest are little-endian.
pub mod Base
pub mod Bytes
pub mod Io
pub mod Memory
pub mod Pipe
pub mod Wasi
pub mod Rpc
pub mod TestPlugin
pub mod Plugin
pub mod Session
