-- ===== src/Plugin/Stderr/Tests.antt =====
-- A guest that has written a line and a half.
use wasmi_plugin_framework.Base.{false, none, [], ◌∷◌}
use wasmi_plugin_framework.Plugin.Stderr.{StderrTask}

abbrev task : StderrTask
task = record {
  line = [];
  buffered = [];
  pipe = record { buf = 72 ∷ 105 ∷ 10 ∷ 72 ∷ []; closed = false; waker = none };
  log = [];
}
