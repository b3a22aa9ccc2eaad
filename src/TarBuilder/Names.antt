-- ===== src/TarBuilder/Names.antt =====
-- The reference name that oci-tar-builder's lib.rs makes of an image's name.
use containerd_wasm.Base.{
  Text, ◌≡◌, refl, none, some, ◌∷◌, ◌++◌, false, contains, split-append, split_once_or,
  head_of_split, contains-append,
}
use containerd_wasm.TarBuilder.{ref_name}

-- The reference name is what stands between the first and the second colon of the image's name. So it
-- is the tag of a name `repository:tag`, but of `host:port/repository:tag`, it is `port/repository`. A
-- name without a colon has none.
pub ref_name-first :
    (before rest : Text)
    → contains b':' before ≡ false
    → (ref_name before ≡ none)
      × (ref_name (before ++ b':' ∷ rest) ≡ some (split_once_or b':' rest).0)
unfolding ref_name
ref_name-first before rest h = (
  rw h refl,
  rw (contains-append b':' before rest)
      (rw (split-append b':' before rest h) (head_of_split b':' rest)),
)
