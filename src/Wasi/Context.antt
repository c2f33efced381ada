-- ===== src/Wasi/Context.antt =====
-- `Errno`, `WasiCtx` and its builders.
use wasmi_plugin_framework.Base.{
  ℕ, Bool, false, Option, none, some, List, [], ◌∷◌, ◌++◌, is_empty, not,
}
use wasmi_plugin_framework.Bytes.{Bytes}
use wasmi_plugin_framework.Io.{IoResult, ok, err, Read}
use wasmi_plugin_framework.Io.Buffered.{BufReader, fill_buf}

pub data Errno : Type 0 where
  success access again badf fault inval io : Errno

-- `errno as i32`
abbrev pub code : Errno → ℕ
code success = 0
code access = 2
code again = 6
code badf = 8
code fault = 21
code inval = 28
code io = 29

-- Strings are their UTF-8 bytes. `R` is the type behind the stdin reader, `W` behind the writers;
-- an `Instant` is a number of nanoseconds.
pub record WasiCtx (R W : Type 0) : Type 0 where
  pub args : List Bytes
  pub env : List Bytes
  pub stdin_reader : Option (BufReader R)
  pub stdout_writer : Option W
  pub stderr_writer : Option W
  pub sleep_until : Option ℕ
  pub awaiting_stdin : Bool

module _ {R W : Type 0} where
  abbrev pub new : WasiCtx R W
  new = record {
    args = [];
    env = [];
    stdin_reader = none;
    stdout_writer = none;
    stderr_writer = none;
    sleep_until = none;
    awaiting_stdin = false;
  }

  abbrev pub add_arg : WasiCtx R W → Bytes → WasiCtx R W
  add_arg ctx arg = record ctx { args = ctx.args ++ (arg ∷ []) }

  -- `format!("{}={}", key, value)`
  abbrev pub add_env : WasiCtx R W → Bytes → Bytes → WasiCtx R W
  add_env ctx key value = record ctx { env = ctx.env ++ ((key ++ (b'=' ∷ value)) ∷ []) }

  abbrev pub set_stdin : WasiCtx R W → R → WasiCtx R W
  set_stdin ctx reader = record ctx { stdin_reader = some (record { buf = []; inner = reader }) }

  abbrev pub set_stdout : WasiCtx R W → W → WasiCtx R W
  set_stdout ctx writer = record ctx { stdout_writer = some writer }

  abbrev pub set_stderr : WasiCtx R W → W → WasiCtx R W
  set_stderr ctx writer = record ctx { stderr_writer = some writer }

-- What `stdin_available` makes of the result of `fill_buf`.
abbrev pub is_readable : IoResult Bytes → Bool
is_readable (ok buf) = not (is_empty buf)
is_readable (err e) = false

module _ {R W : Type 0} ⦃rd : Read R⦄ where
  -- Whether there is data to read. It fills the reader's buffer.
  unfoldable pub stdin_available : WasiCtx R W → Bool × WasiCtx R W
  stdin_available ctx = elim ctx.stdin_reader [
    | none ↦ (false, ctx)
    | some reader ↦
        let (r, reader') = fill_buf reader in
        (is_readable r, record ctx { stdin_reader = some reader' })
  ]
