-- ===== src/Plugin/Running/Answers.antt =====
-- A call on a plugin comes back with what the plugin's method gives.
use Prim.Native.String.{String}
use text.Mathlib.Text.{◌==◌}
use wasmi_plugin_framework.Base.{
  ℕ, zero, suc, ◌≡◌, refl, ap, ◌∙◌, Bool, true, false, Option, some, [], ◌∷◌, ◌++◌, length,
  if◌then◌else◌, arith,
}
use wasmi_plugin_framework.Bytes.{Bytes}
use wasmi_plugin_framework.Io.{IoResult}
use wasmi_plugin_framework.Io.Lines.{read_line}
use wasmi_plugin_framework.Io.Buffered.{BufReader}
use wasmi_plugin_framework.Pipe.{Inner, Poll, ready, pending, non_blocking_pipe, write, drop_writer}
use wasmi_plugin_framework.Pipe.Stream.{pipe_reader}
use wasmi_plugin_framework.Pipe.Fifo.{write_buf, drop_writer_buf}
use wasmi_plugin_framework.Pipe.Lines.{read_line_whole}
use wasmi_plugin_framework.Rpc.Message.{RpcResponse, RpcResult, err, method_not_found}
use wasmi_plugin_framework.Rpc.Transport.{RequestHandler, request, reply, register}
use wasmi_plugin_framework.Rpc.Transport.Polls.{CallTask, reads}
use wasmi_plugin_framework.Rpc.Transport.Polls.Answered.{answer, poll_dry, poll_reply}
use wasmi_plugin_framework.Rpc.Server.{HandlerFn}
use wasmi_plugin_framework.Rpc.OverPipes.{
  Codec, waits, ended, Link, Guest, host_wire, left_by, spawned,
}
use wasmi_plugin_framework.Rpc.OverPipes.RoundTrip.{IsCarried, read_line_dry, plugin_lem}
use wasmi_plugin_framework.Plugin.Join.{started, join}
use wasmi_plugin_framework.Plugin.Join.Rounds.{join_goes_on, join_ends}
use wasmi_plugin_framework.Plugin.Stderr.{StderrTask}
use wasmi_plugin_framework.Plugin.Stderr.Text.{IsText, HasText}
use wasmi_plugin_framework.Plugin.Stderr.Lines.{concat, heard}
use wasmi_plugin_framework.Plugin.Stderr.Ends.{work, poll_stderr_logs}
use wasmi_plugin_framework.Plugin.Stderr.Closed.{poll_stderr-Finishes, poll_stderr_dry}
use wasmi_plugin_framework.Plugin.Running.{
  Running, polled_stderr, stderr_task, rpc_task, instance_task,
}

-- A poll of the stderr task after the guest has ended.
stderr_task_ends :
    {V : Type 0} (utf8 : Bytes → Bool) (s : Running V)
    → HasText utf8 s.stderr
    → s.stderr.pipe.closed ≡ true
    → (t : StderrTask) × (stderr_task utf8 s ≡ (ready tt, record s { stderr = t }))
      × (concat t.log ≡ heard s.stderr)
stderr_task_ends utf8 s text shut =
    let (done, t, e, polled) =
      poll_stderr_logs utf8 0 (suc (work s.stderr)) s.stderr text (omega arith) in
    let is_done : done ≡ true =
      poll_stderr-Finishes utf8 0 (suc (work s.stderr)) s.stderr t done shut e in
    (t, ap (polled_stderr s) e ∙ rw (is_done) refl, (polled.ended is_done).0)

module _ {V : Type 0} where
  -- The call has sent its request, and neither stdout nor stderr has anything yet.
  abbrev pub waiting : ℕ → Option ℕ → Option ℕ → Inner → Running V
  waiting k waker waker' stdin = record {
    call = reads 0 [] (record (register (spawned k)) {
      reader = record {
        lines = record { buf = []; inner = record { buf = []; closed = false; waker = waker } };
        plugin = waits k;
      };
      writer = stdin;
    });
    stderr = record {
      line = [];
      buffered = [];
      pipe = record { buf = []; closed = false; waker = waker' };
      log = [];
    };
    is_running = true;
  }

module _ {V : Type 0} ⦃codec : Codec V⦄ (handler : Option (RequestHandler V Link Inner))
    (fuel : ℕ) where
  pub rpc_waits :
      (k : ℕ) (waker waker' : Option ℕ) (stdin : Inner)
      → rpc_task handler (suc fuel) (waiting k waker waker' stdin)
        ≡ (pending, waiting k waker waker' stdin)
  rpc_waits k waker waker' stdin =
      let link : Link = record {
        lines = record { buf = []; inner = record { buf = []; closed = false; waker = waker } };
        plugin = waits k;
      } in
      rw
        (poll_dry handler fuel 0 (waiting k waker waker' stdin).call.transport link (
          ap
            (λ (x : IoResult ℕ × Bytes × BufReader Inner).
              (x.0, x.1, record { lines = x.2; plugin = waits k }))
            (read_line_dry waker)))
        refl

module _ {V : Type 0} ⦃codec : Codec V⦄ (name : String) (f : HandlerFn (Unit {0}) V (Guest V))
    (said : Bytes) (utf8 : Bytes → Bool) (handler : Option (RequestHandler V Link Inner))
    (fuel : ℕ) where
  module _ (method : String) (params : V) (result : RpcResult V)
      (asked : IsCarried codec (request 0 method params)) (told : IsCarried codec (reply 0 result))
      (text : IsText utf8 true said)
      (gives : (g : Guest V)
        → (if name == method then f tt params g else (err method_not_found, g)) ≡ (result, g)) where
    abbrev pub stdin : Inner
    stdin = (write non_blocking_pipe (asked.bytes ++ (b'\n' ∷ []))).2

    -- The call returns in the second poll after the one in which the guest answers.
    pub join_answers :
        (k : ℕ) (s : Running V) (waker waker' : Option ℕ)
        → rpc_task handler (suc fuel) s ≡ (pending, waiting k waker waker' stdin)
        → (s' : Running V) × (join
              (rpc_task handler (suc fuel))
              (instance_task name f said)
              (stderr_task utf8)
              (λ x. x)
              (suc (suc k))
              started
              s
            ≡ some ((answer 0 result, tt, tt), s'))
          × (concat s'.stderr.log ≡ said)
          × (s'.is_running ≡ false)
    unfolding register drop_writer write non_blocking_pipe
    join_answers (suc k) s waker waker' e =
        let (s', runs, logged, on) =
          join_answers k (waiting k waker (some 0) stdin) waker (some 0)
            (rpc_waits handler fuel k waker (some 0) stdin) in
        (
          s',
          join_goes_on (rpc_task handler (suc fuel)) (instance_task name f said) (stderr_task utf8)
                (λ x. x) (suc (suc k)) s (waiting (suc k) waker waker' stdin)
                (waiting k waker waker' stdin) (waiting k waker (some 0) stdin) e refl
                (ap (polled_stderr (waiting k waker waker' stdin))
                  (poll_stderr_dry utf8 0 0 waker'))
              ∙ runs,
          logged,
          on,
        )
    join_answers zero s waker waker' e =
        let (g, runs, left) =
          plugin_lem name f stdin (record { buf = []; closed = false; waker = waker }) method params
            result asked told (write_buf non_blocking_pipe (asked.bytes ++ (b'\n' ∷ []))) gives in
        let s1 = waiting zero waker waker' stdin in
        let s2 : Running V = record s1 {
          call = record (s1.call) { transport = left_by (some g) s1.call.transport };
          stderr = record (s1.stderr) { pipe = (drop_writer (write s1.stderr.pipe said).2).1 };
          is_running = false;
        } in
        let (t, drained, logged) = stderr_task_ends utf8 s2 text refl in
        let s3 : Running V = record s2 { stderr = t } in
        let b : BufReader Inner = record { buf = []; inner = (drop_writer g.writer).1 } in
        let line = told.bytes ++ (b'\n' ∷ []) in
        let there : b.inner.buf ≡ line =
          drop_writer_buf g.writer
          ∙ ap (λ (x : Inner). x.buf) left
          ∙ write_buf (record { buf = []; closed = false; waker = waker }) line in
        let (c, replied) =
          poll_reply handler fuel (length told.bytes) (spawned zero)
            (record { lines = b; plugin = ended })
            (record { lines = (read_line b).2; plugin = ended }) g.reader.inner line result
            (ap
              (λ (x : IoResult ℕ × Bytes × BufReader Inner).
                (x.0, x.1, record { lines = x.2; plugin = ended }))
              (read_line_whole b told.bytes told.plain there))
            told.parsed in
        (
          record s3 { call = c },
          join_ends (rpc_task handler (suc fuel)) (instance_task name f said) (stderr_task utf8)
              (λ x. x) zero s s1 s2 s3 (record s3 { call = c }) (answer 0 result) tt tt e
              (rw (runs) refl) drained
              (ap
                (λ (x : Poll (RpcResult (RpcResponse V)) × CallTask V Link Inner).
                  (x.0, record s3 { call = x.1 }))
                replied),
          logged,
          refl,
        )
