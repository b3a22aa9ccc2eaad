-- ===== src/Shim/Cli.antt =====
-- crates/containerd-shim-wasm/src/sandbox/shim/cli.rs, and `get_mem` of
-- crates/containerd-shim-wasm/src/sandbox/cli.rs. What starts a process or writes a file is an interface.
use containerd_wasm.Base.{
  ℕ, ◌-◌, ◌^◌, Text, codes, ◌++◌, Option, none, some, List, [], ◌∷◌, Bool, if◌then◌else◌, ◌==◌,
  ◌||◌, ltb, ◌&&◌, Outcome, ok, ◌>>?◌, map_err, and_then, unwrap_or, split, parse_nat, reverse,
  FilePath, path_join, print_nat, unwrap,
}
use containerd_wasm.Base.Dict
use containerd_wasm.Sandbox.Error.{ShimError, other}
use containerd_wasm.Sandbox.Instance.{DateTime}
use containerd_wasm.Sandbox.Oci.{Spec}
use containerd_wasm.Shim.Api.{Timestamp, to_timestamp}
use containerd_wasm.Shim.Local.{Local}
use containerd_wasm.Shim.Local

pub record Cli : Type 0 where
  pub namespace : Text
  pub containerd_address : Text
  pub id : Text

pub record Platform : Type 0 where
  pub current_dir : Outcome Text FilePath
  pub spec_load : FilePath → Outcome Text Spec
  -- By the id of the shim and its grouping: the address of the process.
  pub spawn : Text → Text → Outcome ShimError Text
  pub write_address : Text → Outcome ShimError (Unit {0})

-- The pod of the container, else the container itself.
unfoldable pub grouping : Text → Spec → Text
grouping id spec =
    unwrap_or (and_then spec.annotations (λ a. Dict.get (codes "io.kubernetes.cri.sandbox-id") a))
      id

unfoldable pub start_shim : Platform → Text → Outcome ShimError Text
unfolding grouping
start_shim p id = map_err other p.current_dir >>? λ dir.
    map_err (λ e. ShimError.invalid_argument (codes "error loading runtime spec: " ++ e))
      (p.spec_load (path_join dir (codes "config.json")))
    >>? λ spec.
        p.spawn id (grouping id spec) >>? λ address. p.write_address address >>? λ _. ok address

unfoldable pub create_task_service : {W S : Type 0} → Cli → W → Local W S
create_task_service cli world = Local.new world cli.namespace cli.containerd_address

-- The exit status and the time of a `DeleteResponse`.
unfoldable pub delete_shim : DateTime → ℕ × Timestamp
delete_shim now = (137, to_timestamp now)

abbrev is_whitespace : ℕ → Bool
is_whitespace c = c == 32 || (ltb 8 c && ltb c 14)

unfoldable pub trim_start : Text → Text
trim_start [] = []
trim_start (c ∷ s) = let rest = trim_start s in if is_whitespace c then rest else c ∷ s

-- `trim`, for the white space of ASCII.
abbrev pub trim : Text → Text
trim s = reverse (trim_start (reverse (trim_start s)))

unfoldable pub strip_prefix : Text → Text → Option Text
strip_prefix [] s = some s
strip_prefix (c ∷ p) [] = none
strip_prefix (c ∷ p) (d ∷ s) = let rest = strip_prefix p s in if c == d then rest else none

abbrev pub strip_suffix : Text → Text → Option Text
strip_suffix p s = and_then (strip_prefix (reverse p) (reverse s)) λ r. some (reverse r)

-- The number of a line, in kB: what is there before, where the line has another unit.
abbrev number_of : ℕ → Text → ℕ
number_of before rest = elim (strip_suffix (codes "kB") rest) [
  | none ↦ before
  | some n ↦ unwrap_or (parse_nat (2 ^ 64 - 1) (trim n)) 0
]

-- One round of the loop, on the peaks of the resident set and in total.
unfoldable pub mem_line : ℕ × ℕ → Text → ℕ × ℕ
mem_line (rss, total) line = elim (strip_prefix (codes "VmPeak:") (trim line)) [
  | some rest ↦ (rss, number_of total rest)
  | none ↦ elim (strip_prefix (codes "VmHWM:") (trim line)) [
    | some rest ↦ (number_of rss rest, total)
    | none ↦ (rss, total)
  ]
]

unfoldable pub mem_lines : ℕ × ℕ → List Text → ℕ × ℕ
mem_lines m [] = m
mem_lines m (l ∷ ls) = mem_lines (mem_line m l) ls

-- `get_mem`, by what reading the status of the process gives.
unfoldable pub get_mem : (FilePath → Option Text) → ℕ → Outcome ShimError (ℕ × ℕ)
unfolding mem_lines
get_mem read pid =
    unwrap (read (codes "/proc/" ++ (print_nat pid ++ codes "/status"))) >>? λ status.
    ok (mem_lines (0, 0) (split 10 status))
