-- ===== src/TarBuilder/Artifacts.antt =====
-- When `generate_wasm_artifact` of crates/oci-tar-builder/src/bin.rs cannot build what it is asked for.
use containerd_wasm.Base.{
  ℕ, Text, codes, ◌≡◌, ◌==◌, some, [], true, ok, err, panic, arith, FilePath, Outcome-cases,
  Option-cases, Bool-cases, inl, inr,
}
use containerd_wasm.TarBuilder.Image.{Args, mode_of}
use containerd_wasm.TarBuilder.Command.{Host, or_panic, generate_wasm_artifact, main, one_file}

module _ {W C : Type 0} (host : Host W C) where
  artifact_fails :
      (out : FilePath) (args : Args) (dir : FilePath) (w : W)
      → args.components ≡ some dir
      → ((n : ℕ) (v v' : W)
          → host.count_dir dir v ≡ ok n
          → (e : Text) × ((host.from_component dir v').1 ≡ err e))
      → (or_panic (generate_wasm_artifact host args out) w).1 ≡ panic
  unfolding generate_wasm_artifact
  artifact_fails out args dir w c fails =
      let v = host.print (codes "Generating wasm artifact") w in
      elim (Outcome-cases (host.count_dir dir v)) [
        | inl (n, e) ↦
            let v' = (one_file host dir n v).0 in
            let (x, f) = fails n v v' e in
            elim (Bool-cases (n == 1)) [ inl b ↦ rw c (ground arith) | inr b ↦ rw c (ground arith) ]
        | inr e ↦ rw c (ground arith)
      ]

  -- An artifact of components is never built: the option names a directory, whose entries are counted,
  -- and the configuration is then read from the directory itself, which is an error, so `main` panics
  -- whatever the directory holds.
  pub main_artifact_of_components :
      (out : FilePath) (args : Args) (dir : FilePath) (w : W)
      → args.modules ≡ []
      → args.components ≡ some dir
      → args.as_artifact ≡ true
      → ((n : ℕ) (v v' : W)
          → host.count_dir dir v ≡ ok n
          → (e : Text) × ((host.from_component dir v').1 ≡ err e))
      → (main host (some out) args w).1 ≡ panic
  unfolding main mode_of generate_wasm_artifact
  main_artifact_of_components out args dir w m c a fails = elim (Option-cases (host.parent out)) [
    | inl e ↦ ground arith
    | inr (d, e) ↦ elim (Outcome-cases (host.create_dir_all d w).1) [
      | inl (u, f) ↦
          let end = artifact_fails out args dir (host.create_dir_all d w).0 c fails in ground arith
      | inr f ↦ ground arith
    ]
  ]
