-- ===== src/Sandbox/Oci/Env.antt =====
-- The environment that `parse_env` of oci.rs makes of a list of `NAME=VALUE`.
use containerd_wasm.Base.{
  Text, some, List, [], ◌∷◌, ◌++◌, ◌≡◌, refl, ap, if◌then◌else◌, text_eq, split_once_or,
  head_and_rest-split,
}
use containerd_wasm.Base.Dict
use containerd_wasm.Base.Dict.{Dict}
use containerd_wasm.Sandbox.Oci.{key_value, collect, pairs, parse_env}

-- Splitting a `NAME=VALUE` at every `=` and joining the rest is splitting it at its first `=`, with
-- an empty value where there is none.
pub key_value_lem : (e : Text) → key_value e ≡ split_once_or b'=' e
unfolding key_value
key_value_lem e = head_and_rest-split b'=' e

collect-append :
    (xs : List (Text × Text)) (k v : Text) (m : Dict Text)
    → collect (xs ++ (k, v) ∷ []) m ≡ Dict.put k v (collect xs m)
unfolding collect
collect-append [] k v m = refl
collect-append ((j, w) ∷ xs) k v m = collect-append xs k v (Dict.put j w m)

pairs-append :
    (envs : List Text) (e : Text) → pairs (envs ++ e ∷ []) ≡ pairs envs ++ key_value e ∷ []
pairs-append [] e = refl
pairs-append (d ∷ envs) e = ap (λ l. key_value d ∷ l) (pairs-append envs e)

-- A variable has the value of its last `NAME=VALUE`, where the value is all behind the first `=`:
-- one more entry decides its own name and leaves the other names alone.
pub parse_env-append :
    (envs : List Text) (e name : Text)
    → let (key, value) = split_once_or b'=' e in
      Dict.get name (parse_env (envs ++ e ∷ []))
      ≡ (if text_eq key name then some value else Dict.get name (parse_env envs))
unfolding parse_env
parse_env-append envs e name = rw (pairs-append envs e) (
    rw (collect-append (pairs envs) (key_value e).0 (key_value e).1 []) (
      rw (← key_value_lem e)
        (Dict.get-put name (key_value e).0 (key_value e).1 (collect (pairs envs) []))))
