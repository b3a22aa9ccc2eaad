-- ===== src/StressTest/Once.antt =====
-- What utils.rs and mocks/task.rs of the stress test do once.
use containerd_wasm.Base.{Text, ◌≡◌, refl, Bool, true, false, ok, err, arith, Exec}
use containerd_wasm.StressTest.{TaskState, try_run, delete}

-- A run that succeeds is done.
try_run-done :
    {W : Type 0} (fut : Exec W Text (Unit {0})) (s : W × Bool)
    → (try_run fut s).1 ≡ ok tt
    → (try_run fut s).0.1 ≡ true
unfolding try_run
try_run-done fut (w, true) h = refl
try_run-done fut (w, false) h = ground arith

-- A task that was deleted with success is not deleted or unmounted again, by its own drop or by another
-- call: the next delete succeeds without a call. Where the request fails, the unmount is tried all the
-- same, the error is reported, and the next delete repeats the request.
pub delete-once :
    {W : Type 0} (request unmount : Exec W Text (Unit {0})) (t : TaskState W)
    → ((delete request unmount t).1 ≡ ok tt
        → delete request unmount (delete request unmount t).0
          ≡ ((delete request unmount t).0, ok tt))
      × ((e : Text)
          → t.deleted ≡ false
          → t.unmounted ≡ false
          → (request t.world).1 ≡ err e
          → (unmount (request t.world).0).1 ≡ ok tt
          → ((delete request unmount t).1 ≡ err e)
            × ((delete request unmount t).0 ≡ record {
              world = (unmount (request t.world).0).0;
              deleted = false;
              unmounted = true;
            }))
unfolding delete try_run
delete-once request unmount t =
    let deleted = try_run-done request (t.world, t.deleted) in
    let unmounted =
      try_run-done unmount ((try_run request (t.world, t.deleted)).0.0, t.unmounted) in
    (λ h. ground arith, λ e d m h h'. ground arith)
