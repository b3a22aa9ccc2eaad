-- ===== src/Sandbox/Error.antt =====
-- crates/containerd-shim-wasm/src/sandbox/error.rs: the errors of the shim and the status that
-- containerd gets for each. An error that wraps one of another crate is carried by its text.
use containerd_wasm.Base.{Text, codes, ◌++◌, ◌≡◌, ◌↔◌, ◌⊎◌, arith}

-- The variants of `containerd_shim::Error` that the shim makes or tells apart; `other` stands for
-- all that remain.
pub data ShimError : Type 0 where
  invalid_argument not_found_error unimplemented other : Text → ShimError

pub data Error : Type 0 where
  oci stdio others : Text → Error
  shim : ShimError → Error
  not_found already_exists invalid_argument any failed_precondition : Text → Error
  json errno libcontainer containerd : Text → Error

-- The codes of `ttrpc::Code` that are used.
pub data Code : Type 0 where
  invalid_argument not_found already_exists failed_precondition unknown : Code

pub data TtrpcError : Type 0 where
  rpc_status : Code → Text → TtrpcError
  others : Text → TtrpcError

module _ (display_shim : ShimError → Text) where
  -- The `#[error("...")]` attributes.
  unfoldable pub display : Error → Text
  display (oci s) = s
  display (stdio s) = s
  display (Error.others s) = s
  display (shim s) = display_shim s
  display (Error.not_found s) = codes "not found: " ++ s
  display (Error.already_exists s) = codes "already exists: " ++ s
  display (Error.invalid_argument s) = codes "invalid argument: " ++ s
  display (any s) = s
  display (Error.failed_precondition s) = s
  display (json s) = s
  display (errno s) = s
  display (libcontainer s) = s
  display (containerd s) = s

  unfoldable pub shim_to_ttrpc : ShimError → TtrpcError
  shim_to_ttrpc (ShimError.invalid_argument s) = rpc_status Code.invalid_argument s
  shim_to_ttrpc (not_found_error s) = rpc_status Code.not_found s
  shim_to_ttrpc s = rpc_status unknown (display_shim s)

  -- `impl From<Error> for ttrpc::Error`.
  unfoldable pub to_ttrpc : Error → TtrpcError
  unfolding shim_to_ttrpc display
  to_ttrpc (shim s) = shim_to_ttrpc s
  to_ttrpc (Error.not_found s) = rpc_status Code.not_found s
  to_ttrpc (Error.already_exists s) = rpc_status Code.already_exists s
  to_ttrpc (Error.invalid_argument s) = rpc_status Code.invalid_argument s
  to_ttrpc (Error.failed_precondition s) = rpc_status Code.failed_precondition s
  to_ttrpc (oci s) = rpc_status unknown (display (oci s))
  to_ttrpc (any s) = rpc_status unknown s
  to_ttrpc e = TtrpcError.others (display e)

  -- containerd sees NOT_FOUND with a text exactly when the error is `NotFound` with that text, of
  -- the shim's own kind or of the shim library's.
  pub to_ttrpc-not_found :
      (e : Error) (s : Text)
      → (to_ttrpc e ≡ rpc_status Code.not_found s)
        ↔ ((e ≡ Error.not_found s) ⊎ (e ≡ shim (not_found_error s)))
  unfolding to_ttrpc
  to_ttrpc-not_found e s = ground arith
