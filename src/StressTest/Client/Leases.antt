-- ===== src/StressTest/Client/Leases.antt =====
-- The lease of the client of the stress test, from client.rs.
use containerd_wasm.Base.{codes, ◌≡◌, ◌≢◌, [], ◌∷◌, ok, arith, true, false}
use containerd_wasm.StressTest.Client.{Api, ClientInner, with_metadata, drop_lease}

-- A client that holds a lease deletes it once: the request carries the namespace alone, the client has
-- no lease afterwards, whatever the answer is, and a later drop makes no request.
pub drop_lease-once :
    {W : Type 0} (api : Api W) (w : W) (c : ClientInner)
    → api.parses c.namespace ≡ true
    → c.lease ≢ []
    → let o = api.lease_delete ((codes "containerd-namespace", c.namespace) ∷ []) c.lease false w in
      (drop_lease api (w, c) ≡ ((o.0, record c { lease = [] }), o.1))
      × (drop_lease api (drop_lease api (w, c)).0 ≡ ((drop_lease api (w, c)).0, ok tt))
unfolding drop_lease with_metadata
drop_lease-once api w c p ne = (ground arith, ground arith)
