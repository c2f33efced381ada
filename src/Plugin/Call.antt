-- ===== src/Plugin/Call.antt =====
-- `Plugin` of crates/wasmi-plugin-hdk/src/plugin.rs, and its `call`: it spawns the guest, and joins the
-- transport's call with the guest's task and the stderr task. These futures are arguments, over the
-- state `S` that they share; `H` is the type of the handler, `L` of the logger.
pub mod Ends
mod Tests
use Prim.Native.String.{String}
use wasmi_plugin_framework.Base.{ℕ, Option, none, some}
use wasmi_plugin_framework.Rpc.Message.{RpcResponse, RpcError, custom, RpcResult}
use wasmi_plugin_framework.Wasi.Imports.{FuncLinker, WasiCalls}
use wasmi_plugin_framework.Plugin.Spawn.{
  SpawnError, SpawnResult, spawned, fails, Linker, Instance, spawn_plugin,
}
use wasmi_plugin_framework.Plugin.Join.{Future, Joined, started, join}

pub record Plugin (E Mod H L : Type 0) : Type 0 where
  pub name : String
  pub id : ℕ
  pub handler : H
  pub engine : E
  pub module_ : Mod
  pub logger : L
  pub max_fuel : Option ℕ

module _ {E Mod H L : Type 0} where
  -- `Plugin::new`: `compiled` is the result of `compile_plugin`, `uuid` is random.
  abbrev pub new : String → Option (E × Mod) → ℕ → H → L → Option (Plugin E Mod H L)
  new name none uuid handler default_logger = none
  new name (some (engine, module_)) uuid handler default_logger = some (record {
    name = name;
    id = uuid;
    handler = handler;
    engine = engine;
    module_ = module_;
    logger = default_logger;
    max_fuel = none;
  })

  abbrev pub with_id : Plugin E Mod H L → ℕ → Plugin E Mod H L
  with_id plugin id = record plugin { id = id }

  abbrev pub with_logger : Plugin E Mod H L → L → Plugin E Mod H L
  with_logger plugin logger = record plugin { logger = logger }

  abbrev pub with_max_fuel : Plugin E Mod H L → ℕ → Plugin E Mod H L
  with_max_fuel plugin max_fuel = record plugin { max_fuel = some max_fuel }

pub data PluginError : Type 0 where
  spawn_error : SpawnError → PluginError
  rpc_error : RpcError → PluginError
  plugin_died : PluginError

-- The messages of `thiserror`.
abbrev pub to_string : PluginError → String
to_string (spawn_error e) = "spawn error"
to_string (rpc_error e) = "transport error"
to_string plugin_died = "plugin died"

-- Also `From<PluginError> for RpcError`, which is the same match.
pub as_rpc_code : PluginError → RpcError
as_rpc_code (spawn_error e) = custom (to_string (spawn_error e))
as_rpc_code (rpc_error code) = code
as_rpc_code plugin_died = custom (to_string plugin_died)

pub data PluginResult (A : Type 0) : Type 0 where
  ok : A → PluginResult A
  err : PluginError → PluginResult A

-- The three futures, the state that they start from, and what wakes their task.
pub record Tasks (S I F V : Type 0) : Type 0 where
  pub rpc_task : Future S (RpcResult (RpcResponse V))
  pub instance_task : Future S (Unit {0})
  pub stderr_task : Future S (Unit {0})
  pub wake : S → S
  pub stop : S → S
  pub setup : Instance I F → S

module _ {S I F V : Type 0} (tasks : Tasks S I F V) where
  -- `let res = res?; is_running.store(false); Ok(res)`
  abbrev pub after_join :
      Option ((RpcResult (RpcResponse V) × Unit {0} × Unit {0}) × S)
      → Option (PluginResult (RpcResponse V) × Option S)
  after_join none = none
  after_join (some ((RpcResult.err e, i, l), s)) = some (err (rpc_error e), some s)
  after_join (some ((RpcResult.ok resp, i, l), s)) = some (ok resp, some (tasks.stop s))

  -- The call once `spawn_plugin` has returned: its result, and the state if there is a guest.
  abbrev pub call_spawned :
      ℕ → SpawnResult (Instance I F) → Option (PluginResult (RpcResponse V) × Option S)
  call_spawned fuel (fails e) = some (err (spawn_error e), none)
  call_spawned fuel (spawned inst) = after_join (
      join tasks.rpc_task tasks.instance_task tasks.stderr_task tasks.wake fuel started
        (tasks.setup inst))

module _ {E Mod Li C H L S I F V : Type 0} ⦃funcs : FuncLinker Li C⦄ where
  unfoldable pub call :
      Linker E Mod Li C I F
      → WasiCalls C
      → Tasks S I F V
      → ℕ
      → Plugin E Mod H L
      → Option (PluginResult (RpcResponse V) × Option S)
  unfolding spawn_plugin
  call linker calls tasks fuel plugin =
      call_spawned tasks fuel
        (spawn_plugin linker calls plugin.engine plugin.module_ plugin.max_fuel)
