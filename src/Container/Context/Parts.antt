-- ===== src/Container/Context/Parts.antt =====
-- The entry point of context.rs: its path, its function and its source.
use containerd_wasm.Base.{
  Text, codes, ◌≡◌, ◌++◌, some, List, ◌∷◌, false, arith, contains, split_once-append,
  split_once-absent, file_stem,
}
use containerd_wasm.Container.Context.{WasiContext, args, entrypoint, source_of}

-- The first argument is split at its first `#`: before it is the path that names the module and, where
-- there are no layers, the file it is read from; after it is the function, whatever it contains. An
-- argument without `#` is all path, and its function is `_start`.
pub entrypoint-parts :
    (c : WasiContext) (path f : Text) (rest : List Text)
    → contains b'#' path ≡ false
    → (args c ≡ (path ++ b'#' ∷ f) ∷ rest
        → entrypoint c ≡ record {
          func = f;
          name = file_stem path;
          arg0 = some (path ++ b'#' ∷ f);
          source = source_of c.wasm_layers path;
        })
      × (args c ≡ path ∷ rest
          → entrypoint c ≡ record {
            func = codes "_start";
            name = file_stem path;
            arg0 = some path;
            source = source_of c.wasm_layers path;
          })
unfolding entrypoint
entrypoint-parts c path f rest h =
    let parts = split_once-append b'#' path f h in
    let whole = split_once-absent b'#' path h in (λ a. grind arith, λ a. grind arith)
