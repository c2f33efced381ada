-- ===== src/Rpc/OverPipes/RoundTrip.antt =====
-- A call of the host comes back with what the plugin's method gives.
use Prim.Native.String.{String}
use text.Mathlib.Text.{◌==◌}
use wasmi_plugin_framework.Base.{
  ℕ, zero, suc, ◌≡◌, refl, ap, ◌∙◌, false, Option, none, some, [], ◌∷◌, ◌++◌, length, if◌then◌else◌,
}
use wasmi_plugin_framework.Bytes.{Bytes}
use wasmi_plugin_framework.Io.{IoResult, would_block}
use wasmi_plugin_framework.Io.Buffered.{BufReader, fill_buf}
use wasmi_plugin_framework.Io.Lines.{split_line, read_until, read_line}
use wasmi_plugin_framework.Pipe.{Inner, non_blocking_pipe, read, write, drop_writer}
use wasmi_plugin_framework.Pipe.Fifo.{write_buf, drop_writer_buf}
use wasmi_plugin_framework.Pipe.Stream.{pipe_reader}
use wasmi_plugin_framework.Pipe.Lines.{read_line_whole}
use wasmi_plugin_framework.Rpc.Message.{RpcMessage, RpcResult, ok, err, method_not_found}
use wasmi_plugin_framework.Rpc.Transport
use wasmi_plugin_framework.Rpc.Transport.{
  Wire, JsonRpcTransport, RequestHandler, json_rpc_version, request, reply, register, next_line,
  call,
}
use wasmi_plugin_framework.Rpc.Transport.Answers.{IsAnswered, call_reply_line, call_error_line}
use wasmi_plugin_framework.Rpc.Transport.Polls.Answered.{answer}
use wasmi_plugin_framework.Rpc.Server.{HandlerFn}
use wasmi_plugin_framework.Rpc.PluginServer.{run}
use wasmi_plugin_framework.Rpc.PluginServer.Serves.{run-with_method}
use wasmi_plugin_framework.Rpc.OverPipes.{
  Codec, waits, ended, Link, plugin_wire, host_wire, Host, Guest, main, turn, spawned,
}

-- A message that goes through the codec: it is printed without a newline, and its line is parsed.
pub record IsCarried {V : Type 0} (codec : Codec V) (msg : RpcMessage V) : Type 0 where
  pub bytes : Bytes
  pub printed : codec.to_string msg ≡ some bytes
  pub plain : (split_line bytes).2 ≡ false
  pub parsed : codec.from_str (codec.trim (bytes ++ (b'\n' ∷ []))) ≡ some msg

-- On an empty pipe that is open there is no line yet.
pub read_line_dry :
    (waker : Option ℕ)
    → (let b : BufReader Inner = record {
      buf = [];
      inner = record { buf = []; closed = false; waker = waker };
    } in
        read_line b ≡ (IoResult.err would_block, [], b))
unfolding read_line read_until fill_buf read
read_line_dry waker = refl

module _ {V : Type 0} ⦃codec : Codec V⦄ (name : String)
    (f : HandlerFn (Unit {0}) V (JsonRpcTransport V (BufReader Inner) Inner)) where
  -- The plugin, once the request is in its stdin.
  pub plugin_lem :
      (stdin stdout : Inner) (method : String) (params : V) (result : RpcResult V)
      (asked : IsCarried codec (request 0 method params)) (told : IsCarried codec (reply 0 result))
      → stdin.buf ≡ asked.bytes ++ (b'\n' ∷ [])
      → ((g : Guest V)
          → (if name == method then f tt params g else (err method_not_found, g)) ≡ (result, g))
      → (g : Guest V) × (run (main name f stdin stdout) (λ x. x) 1 ≡ some g)
        × (g.writer ≡ (write stdout (told.bytes ++ (b'\n' ∷ []))).2)
  plugin_lem stdin stdout method params result asked told there gives =
      let b : BufReader Inner = record { buf = []; inner = stdin } in
      let r = (read_line b).2 in
      let start : Guest V = Transport.new b stdout in
      (
        record start { reader = r; writer = (write stdout (told.bytes ++ (b'\n' ∷ []))).2 },
        run-with_method start name f (λ x. x) 0 (record start { reader = r })
            (asked.bytes ++ (b'\n' ∷ [])) told.bytes r _ _ result
            (record {
              n = length asked.bytes;
              line_read = read_line_whole b asked.bytes asked.plain there;
              parsed = asked.parsed;
              printed = told.printed;
              written = record { between = _; written = refl; flushed = refl };
            })
            (gives (record start { reader = r })),
        refl,
      )

  -- The host's transport, with nothing in the plugin's stdout.
  abbrev pub dry : ℕ → Option ℕ → Inner → Host V → Host V
  dry k waker stdin t = record t {
    reader = record {
      lines = record { buf = []; inner = record { buf = []; closed = false; waker = waker } };
      plugin = waits k;
    };
    writer = stdin;
  }

  -- The host waits for the plugin's turn, in which it answers, and then reads its line.
  next_line_lem :
      (k : ℕ) (waker : Option ℕ) (stdin : Inner) (t : Host V) (method : String) (params : V)
      (result : RpcResult V) (asked : IsCarried codec (request 0 method params))
      (told : IsCarried codec (reply 0 result))
      → stdin.buf ≡ asked.bytes ++ (b'\n' ∷ [])
      → ((g : Guest V)
          → (if name == method then f tt params g else (err method_not_found, g)) ≡ (result, g))
      → (r : Link) × (w : Inner) × (next_line (turn name f) (suc (suc k)) [] (dry k waker stdin t)
          ≡ some (ok (told.bytes ++ (b'\n' ∷ [])), record t { reader = r; writer = w }))
  unfolding next_line
  next_line_lem (suc k) waker stdin t method params result asked told there gives =
      let (r, w, e) = next_line_lem k waker stdin t method params result asked told there gives in
      (r, w, rw (read_line_dry waker) e)
  next_line_lem zero waker stdin t method params result asked told there gives =
      let stdout : Inner = record { buf = []; closed = false; waker = waker } in
      let (g, runs, left) = plugin_lem stdin stdout method params result asked told there gives in
      let b : BufReader Inner = record { buf = []; inner = (drop_writer g.writer).1 } in
      let said : b.inner.buf ≡ told.bytes ++ (b'\n' ∷ []) =
        drop_writer_buf g.writer
        ∙ ap (λ (x : Inner). x.buf) left
        ∙ write_buf stdout (told.bytes ++ (b'\n' ∷ [])) in
      (
        record { lines = (read_line b).2; plugin = ended },
        g.reader.inner,
        rw (read_line_dry waker, runs, read_line_whole b told.bytes told.plain said) refl,
      )

  -- The reply, once its line is read, is what the call returns.
  returns :
      (k : ℕ) (handler : Option (RequestHandler V Link Inner)) (method : String) (params : V)
      (t : Host V) (result : RpcResult V) (line : Bytes) (r : Link) (w : Inner)
      → IsAnswered (turn name f) handler method params t (suc k) line r w
      → codec.from_str (codec.trim line) ≡ some (reply t.id result)
      → (t' : Host V) × (call (turn name f) (suc (suc k)) handler method params t
          ≡ some (answer t.id result, t'))
  returns k handler method params t (ok v) line r w x parsed =
      (_, call_reply_line (turn name f) handler method params t k line r w _ x parsed refl)
  returns k handler method params t (err e) line r w x parsed =
      (_, call_error_line (turn name f) handler method params t (suc k) line r w _ x parsed)

  -- The host's transport over the pipes of a plugin that has been spawned, where the request and its
  -- reply each go through the codec on one line: a call returns the result that the plugin's method
  -- gives for the params, or its error, or `MethodNotFound` if the plugin has no method of that name,
  -- after however many turns the plugin answers.
  pub call_over_pipes :
      (k : ℕ) (handler : Option (RequestHandler V Link Inner)) (method : String) (params : V)
      (result : RpcResult V)
      → IsCarried codec (request 0 method params)
      → IsCarried codec (reply 0 result)
      → ((g : Guest V)
          → (if name == method then f tt params g else (err method_not_found, g)) ≡ (result, g))
      → (t' : Host V) × (call (turn name f) (suc (suc k)) handler method params (spawned k)
          ≡ some (answer 0 result, t'))
  unfolding non_blocking_pipe register
  call_over_pipes k handler method params result asked told gives =
      let stdin = (write non_blocking_pipe (asked.bytes ++ (b'\n' ∷ []))).2 in
      let (r, w, e) =
        next_line_lem k none stdin (register (spawned k)) method params result asked told
          (write_buf non_blocking_pipe (asked.bytes ++ (b'\n' ∷ []))) gives in
      returns k handler method params (spawned k) result (told.bytes ++ (b'\n' ∷ [])) r w
        (record {
          bytes = asked.bytes;
          between = stdin;
          sent = stdin;
          serialized = asked.printed;
          written = refl;
          flushed = refl;
          came = e;
        })
        told.parsed
