-- ===== src/Sandbox/RootDir.antt =====
-- `determine_rootdir` of crates/containerd-shim-wasm/src/sandbox/instance_utils.rs.
use containerd_wasm.Base.{
  Text, codes, Option, Outcome, ok, err, unwrap_or, map_ok, map_err, FilePath, path_join,
}
use containerd_wasm.Sandbox.Error.{Error, stdio, json}

-- What `File::open` of the options file gives, with what the JSON reader makes of an open file: the
-- field `root`, or an error.
pub data OptionsFile : Type 0 where
  opened : Outcome Text (Option FilePath) → OptionsFile
  absent : OptionsFile
  unreadable : Text → OptionsFile

module _ (open_options : FilePath → OptionsFile) where
  abbrev root_of : Text → FilePath → OptionsFile → Outcome Error FilePath
  root_of namespace rootdir absent = ok (path_join rootdir namespace)
  root_of namespace rootdir (unreadable e) = err (stdio e)
  root_of namespace rootdir (opened options) =
      map_ok (λ root. path_join (unwrap_or root rootdir) namespace) (map_err json options)

  unfoldable pub determine_rootdir : FilePath → Text → FilePath → Outcome Error FilePath
  determine_rootdir bundle namespace rootdir =
      root_of namespace rootdir (open_options (path_join bundle (codes "options.json")))
