-- ===== src/Container/Engine.antt =====
-- `Engine::can_handle` of crates/containerd-shim-wasm/src/container/engine.rs, which no engine of the
-- repository overrides.
use containerd_wasm.Base.{
  ℕ, Text, codes, List, ◌∷◌, if◌then◌else◌, leb, Outcome, ok, err, ok_or, head?, length, take,
  text_eq, ◌>>?◌, map_ok, FilePath,
}
use containerd_wasm.Container.Files.{FileSystem, resolve_in_path_or_cwd}
use containerd_wasm.Container.Context.{Source, file, oci, WasiContext, entrypoint}

-- `read_exact` on a buffer of four bytes.
abbrev pub first_four : List ℕ → Outcome Text (List ℕ)
first_four bytes =
    if leb 4 (length bytes) then ok (take 4 bytes) else err (codes "failed to fill whole buffer")

-- `b"\0asm"`.
abbrev pub wasm_magic : List ℕ
wasm_magic = 0 ∷ codes "asm"

abbrev pub unless_wasm : List ℕ → Outcome Text (List ℕ) → Outcome Text (Unit {0})
unless_wasm magic parsed = if text_eq magic wasm_magic then ok tt else map_ok (λ _. tt) parsed

module _ (fs : FileSystem) (parse_wat : FilePath → Outcome Text (List ℕ)) where
  abbrev pub handles : Source → Outcome Text (Unit {0})
  handles (oci layers) = ok tt
  handles (file path) =
      ok_or (head? (resolve_in_path_or_cwd fs path)) (codes "module not found") >>? λ _.
      fs.read path >>? λ bytes. first_four bytes >>? λ magic. unless_wasm magic (parse_wat path)

  unfoldable pub can_handle : WasiContext → Outcome Text (Unit {0})
  can_handle ctx = handles (entrypoint ctx).source
