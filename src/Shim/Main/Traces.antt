-- ===== src/Shim/Main/Traces.antt =====
-- How a trace goes from a shim to the shim that it starts, by `shim_main_inner` of
-- crates/containerd-shim-wasm/src/sandbox/cli.rs.
use containerd_wasm.Base.{Text, ◌≡◌, none, true, ok, arith, text_eq_refl}
use containerd_wasm.Base.Dict
use containerd_wasm.Otel.{get_trace_context, set_trace_context}
use containerd_wasm.Shim.Main.{Process, Host, take_part, begin_trace, trace_context_name}

module _ {W : Type 0} (host : Host W) where
  -- A shim without a trace of its own hands on the context of its span: a process that has its
  -- variables, in whatever world, has this context as the parent of its span, and hands on the same
  -- variables, if JSON reads back what it wrote and its text is Unicode.
  pub take_part-take_part :
      (p : Process W) (w : W) {ctx : Text}
      → Dict.get trace_context_name p.vars ≡ none
      → host.sdk.to_json (host.sdk.inject_context p.world) ≡ ok ctx
      → host.sdk.from_json ctx ≡ ok (host.sdk.inject_context p.world)
      → host.is_unicode ctx ≡ true
      → let parent = (take_part host p).0 in
        take_part host (record parent { world = w }) ≡ (
          record {
            vars = parent.vars;
            world = host.sdk.set_parent (host.sdk.inject_context p.world) w;
          },
          ok tt,
        )
  unfolding take_part begin_trace get_trace_context set_trace_context
  take_part-take_part p w {ctx} absent written read unicode = ground (
    arith,
    Dict.get-put trace_context_name trace_context_name ctx p.vars,
    text_eq_refl trace_context_name,
  )
