-- ===== src/Wasi/Imports/Types.antt =====
-- The wasm types of the calls, beside the types that WASI preview 1 gives them.
use Prim.Native.String.{String}
use text.Mathlib.Text.{◌==◌}
use text.Mathlib.TextEquality.{eq_iff}
use text.Mathlib.TextPositions.{eq_refl}
use wasmi_plugin_framework.Base.{
  ◌≡◌, refl, ap, ◌∙◌, false, Bool-cases, inl, inr, Option, none, some, List, [], ◌∷◌, ◌++◌,
  if◌then◌else◌, arith,
}
use wasmi_plugin_framework.Io.{Read, Write}
use wasmi_plugin_framework.Memory.{GuestMemory}
use wasmi_plugin_framework.Wasi.Args
use wasmi_plugin_framework.Wasi.FdRead
use wasmi_plugin_framework.Wasi.FdWrite
use wasmi_plugin_framework.Wasi.Fd
use wasmi_plugin_framework.Wasi.System
use wasmi_plugin_framework.Wasi.Poll
use wasmi_plugin_framework.Wasi.Imports.{FuncLinker, wasi_module, imports, add_to_linker}
use wasmi_plugin_framework.Wasi.Imports.Calls.{
  HostFn, nullary, u32_u32, i32_only, i32_i32, i32_i64_i32, u32_i32_i32_i32, i32_i32_i32_i32,
  i32_exits, wasi_calls,
}
use wasmi_plugin_framework.Wasi.Imports.Table.{find, has, add_to_linker_lem}

pub data ValType : Type 0 where
  i32 i64 : ValType

-- The parameters and the results.
pub record FuncType : Type 0 where
  pub params : List ValType
  pub results : List ValType

abbrev errno_of : List ValType → FuncType
errno_of ts = record { params = ts; results = i32 ∷ [] }

-- wasmi takes a `u32` and an `i32` for an i32, and an `i64` for an i64.
abbrev pub func_type : {M R W : Type 0} → HostFn M R W → FuncType
func_type (nullary f) = errno_of []
func_type (u32_u32 f) = errno_of (i32 ∷ i32 ∷ [])
func_type (i32_only f) = errno_of (i32 ∷ [])
func_type (i32_i32 f) = errno_of (i32 ∷ i32 ∷ [])
func_type (i32_i64_i32 f) = errno_of (i32 ∷ i64 ∷ i32 ∷ [])
func_type (u32_i32_i32_i32 f) = errno_of (i32 ∷ i32 ∷ i32 ∷ i32 ∷ [])
func_type (i32_i32_i32_i32 f) = errno_of (i32 ∷ i32 ∷ i32 ∷ i32 ∷ [])
func_type (i32_exits f) = record { params = i32 ∷ []; results = [] }

-- The calls of WASI preview 1 before `proc_raise`, and behind it, in the order of `imports`.
abbrev types_before : List (String × FuncType)
types_before =
    ("args_get", errno_of (i32 ∷ i32 ∷ []))
    ∷ ("args_sizes_get", errno_of (i32 ∷ i32 ∷ []))
    ∷ ("environ_get", errno_of (i32 ∷ i32 ∷ []))
    ∷ ("environ_sizes_get", errno_of (i32 ∷ i32 ∷ []))
    ∷ ("fd_read", errno_of (i32 ∷ i32 ∷ i32 ∷ i32 ∷ []))
    ∷ ("fd_fdstat_get", errno_of (i32 ∷ i32 ∷ []))
    ∷ ("fd_write", errno_of (i32 ∷ i32 ∷ i32 ∷ i32 ∷ []))
    ∷ ("clock_time_get", errno_of (i32 ∷ i64 ∷ i32 ∷ []))
    ∷ ("fd_close", errno_of (i32 ∷ []))
    ∷ ("random_get", errno_of (i32 ∷ i32 ∷ []))
    ∷ ("sched_yield", errno_of [])
    ∷ ("poll_oneoff", errno_of (i32 ∷ i32 ∷ i32 ∷ i32 ∷ []))
    ∷ []

abbrev types_behind : List (String × FuncType)
types_behind = ("proc_exit", record { params = i32 ∷ []; results = [] }) ∷ []

-- The types in the documentation of WASI preview 1, where `proc_raise` returns an errno.
abbrev pub wasi_types : List (String × FuncType)
wasi_types = types_before ++ (("proc_raise", errno_of (i32 ∷ [])) ∷ types_behind)

module _ {A B : Type 0} where
  abbrev pub typed : (A → B) → Option A → Option B
  typed g none = none
  typed g (some a) = some (g a)

  abbrev map_types : (A → B) → List (String × A) → List (String × B)
  map_types g [] = []
  map_types g ((k, a) ∷ cs) = (k, g a) ∷ map_types g cs

  find-map_types :
      (g : A → B) (name : String) (cs : List (String × A))
      → typed g (find name cs) ≡ find name (map_types g cs)
  unfolding find
  find-map_types g name [] = refl
  find-map_types g name ((k, a) ∷ cs) = elim (Bool-cases (k == name)) [
    | inl e ↦ rw (e) refl
    | inr e ↦ rw (e) (find-map_types g name cs)
  ]

module _ {A : Type 0} (k name : String) (a b : A) (ys : List (String × A)) where
  -- Tables that differ in one entry.
  find_other :
      (xs : List (String × A))
      → has k xs ≡ false
      → find name (xs ++ ((k, a) ∷ ys))
        ≡ (if k == name then some a else find name (xs ++ ((k, b) ∷ ys)))
  unfolding find has
  find_other [] h = elim (Bool-cases (k == name)) [ inl e ↦ rw (e) refl | inr e ↦ rw (e) refl ]
  find_other ((j, c) ∷ xs) h = elim (Bool-cases (j == name)) [
    | inl e ↦ elim (Bool-cases (k == name)) [
      | inl e' ↦ absurd (cc (h, eq_refl j, (eq_iff j name).0 e, (eq_iff k name).0 e'))
      | inr e' ↦ rw (e, e') refl
    ]
    | inr e ↦ rw (e) (find_other xs (ground (arith, h)))
  ]

module _ (M R W : Type 0) ⦃mem : GuestMemory M⦄ ⦃rd : Read R⦄ ⦃wr : Write W⦄ where
  imports_lem :
      (name : String)
      → typed func_type (find name (imports (wasi_calls {M = M} {R = R} {W = W}))) ≡ (
          if "proc_raise" == name
          then some (record { params = i32 ∷ []; results = [] })
          else find name wasi_types)
  unfolding has
  imports_lem name =
      find-map_types func_type name (imports (wasi_calls {M = M} {R = R} {W = W}))
      ∙ find_other "proc_raise" name _ (errno_of (i32 ∷ [])) types_behind types_before refl

  -- The functions by their names.
  pub record HasCalls (get : String → Option (HostFn M R W)) : Type 0 where
    pub args_get : get "args_get" ≡ some (u32_u32 (λ s. Args.args_get))
    pub args_sizes_get : get "args_sizes_get" ≡ some (u32_u32 (λ s. Args.args_sizes_get))
    pub environ_get : get "environ_get" ≡ some (u32_u32 (λ s. Args.env_get))
    pub environ_sizes_get : get "environ_sizes_get" ≡ some (u32_u32 (λ s. Args.env_sizes_get))
    pub fd_read : get "fd_read" ≡ some (u32_i32_i32_i32 (λ s. FdRead.fd_read))
    pub fd_fdstat_get : get "fd_fdstat_get" ≡ some (i32_i32 (λ s. Fd.fd_fdstat_get))
    pub fd_write : get "fd_write" ≡ some (i32_i32_i32_i32 (λ s. FdWrite.fd_write))
    pub clock_time_get :
        get "clock_time_get"
        ≡ some (i32_i64_i32 (λ s id precision. System.clock_time_get s.system_time id))
    pub fd_close : get "fd_close" ≡ some (i32_only (λ s. Fd.fd_close))
    pub random_get : get "random_get" ≡ some (i32_i32 (λ s. System.random_get s.getrandom))
    pub sched_yield : get "sched_yield" ≡ some (nullary (λ s. System.sched_yield))
    pub poll_oneoff :
        get "poll_oneoff" ≡ some (i32_i32_i32_i32 (λ s. Poll.poll_oneoff s.system_time s.instant))
    pub proc_raise : get "proc_raise" ≡ some (i32_exits (λ s. System.proc_raise))
    pub proc_exit : get "proc_exit" ≡ some (i32_exits (λ s. System.proc_exit))

  HasCalls-table :
      (get : String → Option (HostFn M R W))
      → ((n : String) → get n ≡ find n (imports (wasi_calls {M = M} {R = R} {W = W})))
      → HasCalls get
  unfolding find
  HasCalls-table get table = record {
    args_get = table "args_get";
    args_sizes_get = table "args_sizes_get";
    environ_get = table "environ_get";
    environ_sizes_get = table "environ_sizes_get";
    fd_read = table "fd_read";
    fd_fdstat_get = table "fd_fdstat_get";
    fd_write = table "fd_write";
    clock_time_get = table "clock_time_get";
    fd_close = table "fd_close";
    random_get = table "random_get";
    sched_yield = table "sched_yield";
    poll_oneoff = table "poll_oneoff";
    proc_raise = table "proc_raise";
    proc_exit = table "proc_exit";
  }

  module _ (L : Type 0) ⦃funcs : FuncLinker L (HostFn M R W)⦄ where
    -- In a linker that has none of the WASI calls, `add_to_linker` succeeds. The WASI module then has
    -- fourteen functions: each of the calls under its own name, and each with the type that WASI
    -- preview 1 gives to that name, but for `proc_raise`, which has no result where WASI has an errno;
    -- no other name has a function.
    pub add_to_linker_types :
        (l : L)
        → ((n : String) → funcs.get l wasi_module n ≡ none)
        → (l' : L) × (add_to_linker (wasi_calls {M = M} {R = R} {W = W}) l ≡ some l')
          × HasCalls (funcs.get l' wasi_module)
          × ((n : String)
              → typed func_type (funcs.get l' wasi_module n) ≡ (
                  if "proc_raise" == n
                  then some (record { params = i32 ∷ []; results = [] })
                  else find n wasi_types))
    add_to_linker_types l free =
        let (l', runs, table) = add_to_linker_lem (wasi_calls {M = M} {R = R} {W = W}) l free in
        (
          l',
          runs,
          HasCalls-table (funcs.get l' wasi_module) (table wasi_module),
          λ n. ap (typed func_type) (table wasi_module n) ∙ imports_lem n,
        )
