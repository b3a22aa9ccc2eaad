-- ===== src/Containerd/Services.antt =====
-- What client.rs and lease.rs of crates/containerd-shim-wasm/src/sandbox/containerd call of
-- containerd's services and of other crates, as an interface over an outside world `W`; and the
-- part of an engine (crates/containerd-shim-wasm/src/container/engine.rs) that loading needs.
use containerd_wasm.Base.{ℕ, Text, Option, List, Outcome, Exec}
use containerd_wasm.Base.Dict.{Dict}
use containerd_wasm.Sandbox.Oci.{Descriptor, WasmLayer}

pub data WriteAction : Type 0 where
  stat write commit : WriteAction

pub record WriteContentRequest : Type 0 where
  pub action : WriteAction
  pub reference : Text
  pub total : ℕ
  pub expected : Text
  pub offset : ℕ
  pub bytes : List ℕ
  pub labels : Dict Text

pub record WriteContentResponse : Type 0 where
  pub offset : ℕ
  pub digest : Text

-- How the call of `write` begins.
pub data WriteStart : Type 0 where
  opened already_exists : WriteStart
  refused : Text → WriteStart

pub record Image : Type 0 where
  pub name : Text
  pub target : Option Text

pub record Info : Type 0 where
  pub digest : Text
  pub labels : Dict Text

pub record Manifest : Type 0 where
  pub config : Descriptor
  pub layers : List Descriptor

pub data Arch : Type 0 where
  wasm other : Arch

-- `oci_spec::image::Platform`, of which the client reads the architecture.
pub record Platform : Type 0 where
  pub architecture : Arch
  pub os : Text

pub record Services (W : Type 0) : Type 0 where
  -- The image of a container, where there is the container.
  pub get_container : Text → Exec W Text (Option Text)
  pub get_image : Text → Exec W Text (Option Image)
  pub info : Text → Exec W Text (Option Info)
  pub update : Info → Exec W Text (Option Info)
  -- The messages of a read, put together.
  pub read : Text → Exec W Text (List ℕ)
  pub create_lease : Text → Exec W Text (Option Text)
  pub delete_lease : Text → Exec W Text (Unit {0})
  pub send : WriteContentRequest → Exec W Text (Unit {0})
  pub open_write : Text → W → W × WriteStart
  pub message : Exec W Text (Option WriteContentResponse)
  pub digest : List ℕ → Text
  pub parse_digest : Text → Outcome Text Text
  pub parse_manifest : List ℕ → Outcome Text Manifest
  pub parse_platform : List ℕ → Outcome Text Platform

pub record Engine : Type 0 where
  pub name : Text
  pub can_precompile : Option Text
  pub supported_layers_types : List Text
  pub precompile : List WasmLayer → Outcome Text (List (Option (List ℕ)))
