-- ===== src/Container/Files.antt =====
-- crates/containerd-shim-wasm/src/container/path.rs: where a file is looked for. The file system is
-- an interface of questions, as it answers them at one moment.
use containerd_wasm.Base.{
  ℕ, Text, Option, none, some, List, [], ◌∷◌, ◌++◌, Bool, true, false, ltb, if◌then◌else◌, Outcome,
  and_then, length, components, path_join, split, FilePath,
}

pub record FileSystem : Type 0 where
  pub current_dir : Option FilePath
  -- The variable `PATH`.
  pub path_var : Option Text
  pub canonicalize : FilePath → Option FilePath
  pub is_dir : FilePath → Bool
  pub is_file : FilePath → Bool
  pub mode : FilePath → Option ℕ
  pub read : FilePath → Outcome Text (List ℕ)

-- `b.then_some(a)`.
abbrev pub then_some : {A : Type 0} → Bool → A → Option A
then_some true a = some a
then_some false a = none

abbrev cons_some : {A : Type 0} → Option A → List A → List A
cons_some none xs = xs
cons_some (some a) xs = a ∷ xs

-- `iter().filter_map(f)`.
unfoldable pub filter_map : {A B : Type 0} → (A → Option B) → List A → List B
filter_map f [] = []
filter_map f (a ∷ rest) = cons_some (f a) (filter_map f rest)

abbrev pub to_list : {A : Type 0} → Option A → List A
to_list none = []
to_list (some a) = a ∷ []

-- More than one component: the path is relative to the current directory, or absolute.
unfoldable pub has_separator : FilePath → Bool
has_separator file = ltb 1 (length (components file))

module _ (fs : FileSystem) where
  -- The components of `PATH`.
  unfoldable pub paths : List FilePath
  paths = elim fs.path_var [ none ↦ [] | some v ↦ split b':' v ]

  abbrev pub as_dir : FilePath → Option FilePath
  as_dir p =
      and_then fs.current_dir
        λ cwd. and_then (fs.canonicalize (path_join cwd p)) λ path. then_some (fs.is_dir path) path

  abbrev pub as_file : FilePath → FilePath → Option FilePath
  as_file file p =
      and_then (fs.canonicalize (path_join p file)) λ path. then_some (fs.is_file path) path

  abbrev pub search_dirs : FilePath → List FilePath → List FilePath
  search_dirs file dirs =
      if has_separator file then to_list fs.current_dir else filter_map as_dir dirs

  unfoldable pub resolve_in_dirs : FilePath → List FilePath → List FilePath
  resolve_in_dirs file dirs = filter_map (as_file file) (search_dirs file dirs)

  unfoldable pub resolve_in_path : FilePath → List FilePath
  unfolding resolve_in_dirs paths
  resolve_in_path file = resolve_in_dirs file paths

  unfoldable pub resolve_in_path_or_cwd : FilePath → List FilePath
  unfolding resolve_in_dirs paths
  resolve_in_path_or_cwd file = resolve_in_dirs file (paths ++ to_list fs.current_dir)
