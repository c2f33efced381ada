-- ===== src/Plugin/Call/Ends.antt =====
-- How a call on a plugin ends.
use wasmi_plugin_framework.Base.{ℕ, ◌≡◌, refl, ap, subst, Option, none, some, Bool, true}
use wasmi_plugin_framework.Pipe.{ready, pending}
use wasmi_plugin_framework.Rpc.Message.{RpcResponse, RpcResult}
use wasmi_plugin_framework.Wasi.Imports.{FuncLinker, WasiCalls}
use wasmi_plugin_framework.Plugin.Spawn.{
  SpawnResult, spawned, fails, Linker, Instance, spawn_plugin,
}
use wasmi_plugin_framework.Plugin.Join.{started}
use wasmi_plugin_framework.Plugin.Join.Keeps.{join_never}
use wasmi_plugin_framework.Plugin.Join.Returns.{ReturnsResults, join-ReturnsResults}
use wasmi_plugin_framework.Plugin.Call.{
  Plugin, spawn_error, rpc_error, plugin_died, PluginResult, ok, err, Tasks, after_join,
  call_spawned, call,
}

module _ {S I F V : Type 0} (tasks : Tasks S I F V) (flag : S → Bool) where
  -- The guest's task goes on as long as the flag is set, and nothing but the end of `call` clears it.
  pub record RunsOn : Type 0 where
    pub rpc_keeps : (s : S) → flag s ≡ true → flag (tasks.rpc_task s).1 ≡ true
    pub runs :
        (s : S)
        → flag s ≡ true
        → ((tasks.instance_task s).0 ≡ pending) × (flag (tasks.instance_task s).1 ≡ true)
    pub stderr_keeps : (s : S) → flag s ≡ true → flag (tasks.stderr_task s).1 ≡ true
    pub wake_keeps : (s : S) → flag s ≡ true → flag (tasks.wake s) ≡ true
    pub setup_sets : (inst : Instance I F) → inst.is_running ≡ true → flag (tasks.setup inst) ≡ true

module _ {E Mod Li C H L S I F V : Type 0} ⦃funcs : FuncLinker Li C⦄
    (linker : Linker E Mod Li C I F) (calls : WasiCalls C) where
  -- A guest that is spawned, and that does not end by itself while its flag is set, keeps `call` from
  -- returning, however often it is polled and whatever the transport's call has returned: the flag
  -- is cleared only when all three tasks have ended.
  pub call_hangs :
      (tasks : Tasks S I F V) (flag : S → Bool) (fuel : ℕ) (plugin : Plugin E Mod H L)
      (inst : Instance I F)
      → RunsOn tasks flag
      → spawn_plugin linker calls plugin.engine plugin.module_ plugin.max_fuel ≡ spawned inst
      → inst.is_running ≡ true
      → call linker calls tasks fuel plugin ≡ none
  unfolding call
  call_hangs tasks flag fuel plugin inst on e up = rw (e) (
      ap (after_join tasks) (
        join_never tasks.rpc_task tasks.instance_task tasks.stderr_task tasks.wake flag on.rpc_keeps
          on.runs on.stderr_keeps on.wake_keeps fuel started (tasks.setup inst) refl
          (on.setup_sets inst up)))

module _ {S I F V : Type 0} where
  -- What a result of a call says, where `o` is what `spawn_plugin` returned.
  pub Outcome :
      Tasks S I F V → SpawnResult (Instance I F) → PluginResult (RpcResponse V) → Option S → Type 0
  Outcome tasks o (ok resp) s =
      ((s0 : S) × (s ≡ some (tasks.stop s0)))
      × ((s1 : S) × ((tasks.rpc_task s1).0 ≡ ready (RpcResult.ok resp)))
      × ((s2 : S) × ((tasks.instance_task s2).0 ≡ ready tt))
  Outcome tasks o (err (spawn_error e)) s = (o ≡ fails e) × (s ≡ none)
  Outcome tasks o (err (rpc_error e)) s =
      (s1 : S) × ((tasks.rpc_task s1).0 ≡ ready (RpcResult.err e))
  Outcome tasks o (err plugin_died) s = ⊥

  abbrev EndsAs :
      Tasks S I F V
      → SpawnResult (Instance I F)
      → Option (PluginResult (RpcResponse V) × Option S)
      → Type 0
  EndsAs tasks o none = Unit
  EndsAs tasks o (some (r, s)) = Outcome tasks o r s

  after_join-EndsAs :
      (tasks : Tasks S I F V) (o : SpawnResult (Instance I F))
      (x : Option ((RpcResult (RpcResponse V) × Unit {0} × Unit {0}) × S))
      → ReturnsResults tasks.rpc_task tasks.instance_task tasks.stderr_task x
      → EndsAs tasks o (after_join tasks x)
  unfolding Outcome
  after_join-EndsAs tasks o none h = tt
  after_join-EndsAs tasks o (some ((RpcResult.err e, i, l), s)) h = h.0
  after_join-EndsAs tasks o (some ((RpcResult.ok resp, i, l), s)) (a, b, c) = ((s, refl), a, b)

  call_spawned-EndsAs :
      (tasks : Tasks S I F V) (fuel : ℕ) (o : SpawnResult (Instance I F))
      → EndsAs tasks o (call_spawned tasks fuel o)
  unfolding Outcome
  call_spawned-EndsAs tasks fuel (fails e) = (refl, refl)
  call_spawned-EndsAs tasks fuel (spawned inst) = after_join-EndsAs tasks (spawned inst) _ (
      join-ReturnsResults tasks.rpc_task tasks.instance_task tasks.stderr_task tasks.wake fuel
        started (tasks.setup inst) (record { first = tt; second = tt; third = tt }))

module _ {E Mod Li C H L S I F V : Type 0} ⦃funcs : FuncLinker Li C⦄
    (linker : Linker E Mod Li C I F) (calls : WasiCalls C) where
  -- A call that returns has failed to spawn the guest, with the error of that, and has polled
  -- nothing; or it has the error with which the transport's call has ended; or it has the response with
  -- which the transport's call has ended, the guest's task has ended too, and the guest's flag is
  -- cleared then. It never says that the plugin died.
  pub call_outcome :
      (tasks : Tasks S I F V) (fuel : ℕ) (plugin : Plugin E Mod H L)
      (r : PluginResult (RpcResponse V)) (s : Option S)
      → call linker calls tasks fuel plugin ≡ some (r, s)
      → Outcome tasks (spawn_plugin linker calls plugin.engine plugin.module_ plugin.max_fuel) r s
  unfolding call
  call_outcome tasks fuel plugin r s e =
      let o = spawn_plugin linker calls plugin.engine plugin.module_ plugin.max_fuel in
      subst (EndsAs tasks o) e (call_spawned-EndsAs tasks fuel o)
