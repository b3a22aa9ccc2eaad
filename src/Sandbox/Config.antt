-- ===== src/Sandbox/Config.antt =====
-- `InstanceConfig` of crates/containerd-shim-wasm/src/sandbox/instance.rs.
use containerd_wasm.Base.{Text, []}

pub record InstanceConfig : Type 0 where
  pub stdin : Text
  pub stdout : Text
  pub stderr : Text
  pub bundle : Text
  pub namespace : Text
  pub containerd_address : Text

unfoldable pub new : Text → Text → InstanceConfig
new namespace containerd_address = record {
  stdin = [];
  stdout = [];
  stderr = [];
  bundle = [];
  namespace = namespace;
  containerd_address = containerd_address;
}

unfoldable pub set_stdin : Text → InstanceConfig → InstanceConfig
set_stdin path c = record c { stdin = path }

unfoldable pub set_stdout : Text → InstanceConfig → InstanceConfig
set_stdout path c = record c { stdout = path }

unfoldable pub set_stderr : Text → InstanceConfig → InstanceConfig
set_stderr path c = record c { stderr = path }

unfoldable pub set_bundle : Text → InstanceConfig → InstanceConfig
set_bundle path c = record c { bundle = path }
