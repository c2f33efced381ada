-- ===== src/Plugin/Spawn/Fresh.antt =====
-- The pipes of a guest that was spawned.
use wasmi_plugin_framework.Base.{ℕ, ◌≡◌, refl, subst, true, Option, none, some}
use wasmi_plugin_framework.Wasi.Imports.{FuncLinker, WasiCalls, add_to_linker}
use wasmi_plugin_framework.Plugin.Spawn.{
  SpawnResult, spawned, Linker, Instance, fresh_pipes, guest_ctx, started, instantiated, linked,
  spawn_plugin,
}

module _ {I F : Type 0} where
  -- The same guest, with its pipes as they are made.
  abbrev pub fresh : Instance I F → Instance I F
  fresh inst = record inst {
    pipes = fresh_pipes;
    stdin_writer = 0;
    stdout_reader = 1;
    stderr_reader = 2;
    is_running = true;
  }

  abbrev IsFresh : SpawnResult (Instance I F) → Type 0
  IsFresh o = (inst : Instance I F) → o ≡ spawned inst → inst ≡ fresh inst

  started-IsFresh :
      (max_fuel : Option ℕ) (store : I) (o : Option F) → IsFresh (started max_fuel store o)
  started-IsFresh max_fuel store none inst e = absurd (cc e)
  started-IsFresh max_fuel store (some start_func) inst e =
      let made : Instance I F = record {
        pipes = fresh_pipes;
        stdin_writer = 0;
        stdout_reader = 1;
        stderr_reader = 2;
        is_running = true;
        store = store;
        start_func = start_func;
        max_fuel = max_fuel;
      } in
      let same : made ≡ inst = cc e in subst (λ x. x ≡ fresh x) same refl

module _ {E Mod L C I F : Type 0} ⦃funcs : FuncLinker L C⦄ (linker : Linker E Mod L C I F) where
  instantiated-IsFresh :
      (max_fuel : Option ℕ) (o : Option I) → IsFresh (instantiated linker max_fuel o)
  instantiated-IsFresh max_fuel none inst e = absurd (cc e)
  instantiated-IsFresh max_fuel (some store) inst e =
      started-IsFresh max_fuel store (linker.get_func store "_start") inst e

  linked-IsFresh :
      (module_ : Mod) (max_fuel : Option ℕ) (o : Option L)
      → IsFresh (linked linker module_ max_fuel o)
  linked-IsFresh module_ max_fuel none inst e = absurd (cc e)
  linked-IsFresh module_ max_fuel (some l) inst e =
      instantiated-IsFresh max_fuel (linker.instantiate_and_start l module_ guest_ctx) inst e

  pub spawn_plugin-IsFresh :
      (calls : WasiCalls C) (engine : E) (module_ : Mod) (max_fuel : Option ℕ)
      → IsFresh (spawn_plugin linker calls engine module_ max_fuel)
  unfolding spawn_plugin
  spawn_plugin-IsFresh calls engine module_ max_fuel inst e =
      linked-IsFresh module_ max_fuel (add_to_linker calls (linker.new_linker engine)) inst e
