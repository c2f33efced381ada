-- ===== src/Wasi/Fd/Tests.antt =====
-- `fd_fdstat_get` of a small guest.
use wasmi_plugin_framework.Base.{refl, arith, pos}
use wasmi_plugin_framework.Pipe.{Inner}
use wasmi_plugin_framework.Memory.Linear.{Linear, linear_memory}
use wasmi_plugin_framework.Wasi.Context.{new}
use wasmi_plugin_framework.Wasi.Caller.{Caller}
use wasmi_plugin_framework.Wasi.Guest.{caller, two_vectors}
use wasmi_plugin_framework.Wasi.Fd.Stat.{rights_of, Tells, fd_fdstat_get_lem}

abbrev guest : Caller Linear Inner Inner
guest = caller new two_vectors

fd_fdstat_get_lem_example : Tells (rights_of (pos 1)) (pos 1) (pos 64) guest two_vectors
fd_fdstat_get_lem_example = fd_fdstat_get_lem (pos 1) (pos 64) guest two_vectors refl (omega arith)
