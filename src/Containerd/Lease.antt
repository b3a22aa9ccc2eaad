-- ===== src/Containerd/Lease.antt =====
-- crates/containerd-shim-wasm/src/sandbox/containerd/lease.rs: the guard that deletes a lease, once.
use containerd_wasm.Base.{
  ◌≡◌, refl, Text, codes, ◌++◌, ◌≡◌, refl, Option, none, some, List, [], ◌∷◌, Bool, false, Outcome,
  ok, err, panic, Exec, lift, map_error,
}

-- `with_lease!`: the headers of a request under a lease.
abbrev pub with_lease : Text → Text → List (Text × Text)
with_lease namespace lease_id =
    (codes "containerd-namespace", namespace) ∷ (codes "containerd-lease", lease_id) ∷ []

-- `LeaseGuardInner`, with the namespace of its request.
pub record Inner : Type 0 where
  pub id : Text
  pub sync : Bool
  pub namespace : Text

-- The guard is empty once it is released or dropped.
pub record LeaseGuard : Type 0 where
  pub inner : Option Inner

pub record Leases (W : Type 0) : Type 0 where
  -- The request: its namespace, the lease, and whether it waits.
  pub delete : Text → Text → Bool → Exec W Text (Unit {0})
  -- `anyhow`'s context.
  pub context : Text → Text → Text
  -- Starts a future that nobody waits for.
  pub spawn : (W → W) → W → W
  pub log_info : Text → W → W
  pub log_warn : Text → W → W

unfoldable pub new : Text → Text → LeaseGuard
new id namespace = record { inner = some (record { id = id; sync = false; namespace = namespace }) }

abbrev id_of : Option Inner → Outcome Text Text
id_of none = panic
id_of (some i) = ok i.id

unfoldable pub id : LeaseGuard → Outcome Text Text
id g = id_of g.inner

module _ {W : Type 0} (leases : Leases W) where
  unfoldable pub release_inner : Inner → Exec W Text (Unit {0})
  release_inner i =
      map_error (leases.context (codes "Failed to remove lease"))
        (leases.delete i.namespace i.id i.sync)

  -- `ManuallyDrop` keeps the guard from being dropped as well.
  abbrev release_taken : Option Inner → Exec W Text (Unit {0})
  release_taken none = lift panic
  release_taken (some i) = release_inner i

  unfoldable pub release : Exec (W × LeaseGuard) Text (Unit {0})
  unfolding release_inner
  release (w, g) = let (w', r) = release_taken g.inner w in ((w', record { inner = none }), r)

  abbrev log_result : W → Outcome Text (Unit {0}) → W
  log_result w (ok u) = leases.log_info (codes "removed lease") w
  log_result w (err e) = leases.log_warn (codes "error removing lease: " ++ e) w
  log_result w panic = w

  abbrev dropped : Option Inner → Exec W Text (Unit {0})
  dropped none w = (w, panic)
  dropped (some i) w =
      (leases.spawn (λ v. let (v', r) = release_inner i v in log_result v' r) w, ok tt)

  -- `Drop for LeaseGuard`.
  unfoldable pub drop : Exec (W × LeaseGuard) Text (Unit {0})
  unfolding release_inner
  drop (w, g) = let (w', r) = dropped g.inner w in ((w', record { inner = none }), r)

-- A new guard has the id of its lease. Released, it makes one request for this lease, and a failure is
-- reported; dropped, it starts one such request, and succeeds at once. In both cases it is used up.
pub new_guard_once :
    {W : Type 0} (leases : Leases W) (w : W) (lease_id namespace : Text)
    → let g = new lease_id namespace in
      let used : LeaseGuard = record { inner = none } in
      (id g ≡ ok lease_id)
      × ((release leases (w, g)).0 ≡ ((leases.delete namespace lease_id false w).0, used))
      × ((drop leases (w, g)).1 ≡ ok tt)
      × ((drop leases (w, g)).0.1 ≡ used)
unfolding new id release drop
new_guard_once leases w lease_id namespace = (refl, refl, refl, refl)
