-- ===== src/TarBuilder/Options.antt =====
-- What bin.rs of oci-tar-builder makes of an option for a layer and of the image's name.
use containerd_wasm.Base.{
  ℕ, Text, codes, ◌++◌, ◌≡◌, refl, ◌∙◌, ap, some, [], ◌∷◌, false, split-append, split-absent,
  contains, arith, split_once_or, split_once-absent, split_once-append, append_assoc,
}
use containerd_wasm.TarBuilder.{ref_name}
use containerd_wasm.TarBuilder.Names.{ref_name-first}
use containerd_wasm.TarBuilder.Image.{Args, last, layer_option, name_of}

-- An option `type=path` is its type and its path, if the path has no `=`. A path with `=` is cut: what
-- stands between the first and the last `=` is lost.
pub layer_option_lem :
    (media_type path more : Text)
    → contains b'=' media_type ≡ false
    → contains b'=' path ≡ false
    → contains b'=' more ≡ false
    → (layer_option (media_type ++ b'=' ∷ path) ≡ (media_type, path))
      × (layer_option (media_type ++ b'=' ∷ (path ++ b'=' ∷ more)) ≡ (media_type, more))
unfolding layer_option last
layer_option_lem media_type path more m p q = (
  rw (split-append b'=' media_type path m) (rw (split-absent b'=' path p) refl),
  rw (split-append b'=' media_type (path ++ b'=' ∷ more) m)
      (rw (split-append b'=' path more p) (rw (split-absent b'=' more q) refl)),
)

contains-++ :
    (c : ℕ) (s t : Text) → contains c s ≡ false → contains c t ≡ false → contains c (s ++ t) ≡ false
unfolding contains
contains-++ c [] t h k = k
contains-++ c (a ∷ s) t h k = ground (arith, contains-++ c s t)

before_tag :
    (name tag port : Text)
    → contains b':' port ≡ false
    → contains b':' (codes "/" ++ name) ≡ false
    → (split_once_or b':' (port ++ (codes "/" ++ (name ++ b':' ∷ tag)))).0
      ≡ port ++ (codes "/" ++ name)
before_tag name tag port p n = rw (← append_assoc port (codes "/" ++ name) (b':' ∷ tag)) (
    rw
      (
        split_once_or,
        split_once-append b':' (port ++ (codes "/" ++ name)) tag
            (contains-++ b':' port (codes "/" ++ name) p n),
      )
      refl)

-- The reference name of the image is its tag, if neither the repository nor the name has a colon. If
-- the repository has one, as with the port of a registry, the reference name is what stands behind that
-- colon, up to the next.
pub ref_name-name_of :
    (args : Args) (host port : Text)
    → contains b':' args.name ≡ false
    → contains b':' args.tag ≡ false
    → contains b':' host ≡ false
    → contains b':' port ≡ false
    → (args.repo ≡ host → ref_name (name_of args) ≡ some args.tag)
      × (args.repo ≡ host ++ b':' ∷ port
          → ref_name (name_of args) ≡ some (port ++ (codes "/" ++ args.name)))
unfolding name_of
ref_name-name_of args host port n t h p =
    let named = contains-++ b':' (codes "/") args.name (unfold contains in refl) n in
    (
      λ e. rw e (
          rw (← append_assoc host (codes "/" ++ args.name) (b':' ∷ args.tag)) (
            (ref_name-first (host ++ (codes "/" ++ args.name)) args.tag
              (contains-++ b':' host (codes "/" ++ args.name) h named)).1
            ∙ rw (split_once_or, split_once-absent b':' args.tag t) refl)),
      λ e. rw e (
          rw (append_assoc host (b':' ∷ port) (codes "/" ++ (args.name ++ b':' ∷ args.tag))) (
            (ref_name-first host (port ++ (codes "/" ++ (args.name ++ b':' ∷ args.tag))) h).1
            ∙ ap (λ x. some x) (before_tag args.name args.tag port p named))),
    )
