-- ===== src/Base/Paths.antt =====
-- What the program uses of `std::path`, on Unix paths as texts.
use mathlib.Core.Path.{◌≡◌, refl}
use mathlib.Core.Bool.{Bool, true, false, not, ◌&&◌}
use mathlib.Core.Option.{Option, none, some}
use mathlib.Core.List.{List, [], ◌∷◌, ◌++◌, reverse}
use containerd_wasm.Base.Tests.{◌==◌, if◌then◌else◌}
use containerd_wasm.Base.Lists.{keep, length, is_empty}
use containerd_wasm.Base.Bytes.{Text, codes, text_eq, split, split_once}

abbrev pub FilePath : Type 0
FilePath = Text

abbrev pub is_absolute : FilePath → Bool
is_absolute [] = false
is_absolute (a ∷ s) = a == b'/'

abbrev ends_with_slash : FilePath → Bool
ends_with_slash s = elim (reverse s) [ [] ↦ true | a ∷ r ↦ a == b'/' ]

-- `base.join(p)`: an absolute path replaces the base; a separator is put in where one is needed.
unfoldable pub path_join : FilePath → FilePath → FilePath
path_join base p =
    if is_absolute p
    then p
    else if ends_with_slash base
    then base ++ p
    else base ++ (codes "/" ++ p)

-- The parts between separators; empty parts and `.` are no components, but for a leading `.`.
is_part : Text → Bool
is_part s = not (is_empty s) && not (text_eq s (codes "."))

unfoldable pub parts : FilePath → List Text
unfolding is_part
parts s = keep is_part (split b'/' s)

abbrev leading : FilePath → List Text
leading s = elim (split b'/' s) [
  | [] ↦ []
  | w ∷ ws ↦ if is_absolute s then codes "/" ∷ [] else if text_eq w (codes ".") then w ∷ [] else []
]

-- `p.components()`.
unfoldable pub components : FilePath → List Text
unfolding parts
components s = leading s ++ parts s

abbrev last? : List Text → Option Text
last? ws = elim (reverse ws) [ [] ↦ none | w ∷ r ↦ some w ]

abbrev unless_parent : Option Text → Option Text
unless_parent none = none
unless_parent (some w) = if text_eq w (codes "..") then none else some w

-- `p.file_name()`: the last component, if it is a normal one.
unfoldable pub file_name : FilePath → Option Text
unfolding parts
file_name s = unless_parent (last? (parts s))

-- The name up to its last dot; a name whose only dot is its first byte keeps it.
abbrev before_last_dot : Text → Option (Text × Text) → Text
before_last_dot w none = w
before_last_dot w (some (ext, [])) = w
before_last_dot w (some (ext, c ∷ before)) = reverse (c ∷ before)

abbrev stem_of : Option Text → Option Text
stem_of none = none
stem_of (some w) = some (before_last_dot w (split_once b'.' (reverse w)))

-- `p.file_stem()`.
unfoldable pub file_stem : FilePath → Option Text
unfolding file_name
file_stem s = stem_of (file_name s)

file_stem_app : file_stem (codes "/app/app.wasm") ≡ some (codes "app")
unfolding file_stem split split_once keep text_eq is_part
file_stem_app = refl

file_stem_hidden : file_stem (codes "dir/.wasm/") ≡ some (codes ".wasm")
unfolding file_stem split split_once keep text_eq is_part
file_stem_hidden = refl

path_join_examples :
    (path_join (codes "/run") (codes "ns") ≡ codes "/run/ns")
    × (path_join (codes "/run/") (codes "ns") ≡ codes "/run/ns")
    × (path_join (codes "/run") (codes "/etc") ≡ codes "/etc")
    × (length (components (codes "./a//b/")) ≡ 3)
unfolding path_join components split text_eq is_part keep
path_join_examples = (refl, refl, refl, refl)
