-- ===== src/Rpc/Tests.antt =====
-- Errors as JSON, at a custom one.
use wasmi_plugin_framework.Base.{◌≡◌}
use wasmi_plugin_framework.Rpc.Message.{custom, serialize, deserialize, deserialize-serialize}

deserialize-serialize_example :
    deserialize (serialize (custom "Handler not found")) ≡ custom "Handler not found"
deserialize-serialize_example = deserialize-serialize (custom "Handler not found")
