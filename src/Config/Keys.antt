-- ===== src/Config/Keys.antt =====
-- The legacy key of src/config.rs: `control_port` for `grpc_port`.
use p2p_service.Prelude.{
  ◌≡◌, refl, sym, not, ◌&&◌, Option, none, some, is_some, or_else, Option-cases, inl, inr, arith,
  some_inj,
}
use p2p_service.Deps.{Deps}
use p2p_service.Config.{P2pConfig, P2pKeys, Port, aliased, fill}

module _ (d : Deps) where
  aliased_lem :
      (modern legacy : Option Port)
      → (is_some (aliased modern legacy) ≡ not (is_some modern && is_some legacy))
        × ((p : Option Port) (base : Port)
            → aliased modern legacy ≡ some p
            → or_else base p ≡ or_else (or_else base legacy) modern)
  unfolding aliased
  aliased_lem none legacy = (refl, λ p base e. ground (arith, e))
  aliased_lem (some a) none = (refl, λ p base e. ground (arith, e))
  aliased_lem (some a) (some b) = (refl, λ p base e. ground (arith, e))

  -- A p2p section is refused only if it has both grpc_port and its legacy name control_port; else
  -- the port is that of the one that is given, or the default, and port, topics and peers are
  -- those given, or the defaults.
  pub fill-grpc_port :
      (keys : P2pKeys d) (base : P2pConfig d)
      → (is_some (fill d keys base) ≡ not (is_some keys.grpc_port && is_some keys.control_port))
        × ((c : P2pConfig d)
            → fill d keys base ≡ some c
            → (c.grpc_port ≡ or_else (or_else base.grpc_port keys.control_port) keys.grpc_port)
              × (c.port ≡ or_else base.port keys.port)
              × (c.topics ≡ or_else base.topics keys.topics)
              × (c.peers ≡ or_else base.peers keys.peers))
  unfolding fill
  fill-grpc_port keys base =
      let (kept, value) = aliased_lem keys.grpc_port keys.control_port in
      elim (Option-cases (aliased keys.grpc_port keys.control_port)) [
        | inl e ↦ rw (e, fill) (ground (arith, e, kept), λ c h. ground (arith, h))
        | inr (p, e) ↦
            rw (e, fill)
              (
                ground (arith, e, kept),
                λ c h.
                    let same = some_inj h in
                    rw (sym same) (value p base.grpc_port e, refl, refl, refl),
              )
      ]
