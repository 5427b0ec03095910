-- ===== src/Startup/Defaults.antt =====
-- The defaults of src/config.rs against the checks of src/main.rs.
use mathlib.Core.Path.{subst}
use p2p_service.Prelude.{◌≡◌, true, Option, none, some, arith, Option-cases, inl, inr}
use p2p_service.Deps.{Deps, ok}
use p2p_service.Config.{
  P2pConfig, P2pKeys, AppConfig, SentryConfig, aliased, default_p2p, fill, read_app_config,
}
use p2p_service.Startup.{validate_config}

module _ (d : Deps) where
  -- The keys set none of the limits that startup checks.
  pub record LeavesLimits (keys : P2pKeys d) : Type 0 where
    pub low_water : keys.low_water ≡ none
    pub high_water : keys.high_water ≡ none
    pub per_subnet_cap : keys.per_subnet_cap ≡ none
    pub max_protected_share : keys.max_protected_share ≡ none
    pub maintenance_interval_secs : keys.maintenance_interval_secs ≡ none

  -- The limits of a configuration are the default ones.
  record HasDefaultLimits (c : P2pConfig d) : Type 0 where
    low_water : c.low_water ≡ 80
    high_water : c.high_water ≡ 160
    per_subnet_cap : c.per_subnet_cap ≡ 4
    max_protected_share : c.max_protected_share ≡ d.f32_half
    maintenance_interval_secs : c.maintenance_interval_secs ≡ 30

  default_p2p-HasDefaultLimits : (c : P2pConfig d) → default_p2p d ≡ some c → HasDefaultLimits c
  unfolding default_p2p
  default_p2p-HasDefaultLimits c h = ground (arith, h)

  fill-HasDefaultLimits :
      (keys : P2pKeys d) (base c : P2pConfig d)
      → LeavesLimits keys
      → HasDefaultLimits base
      → fill d keys base ≡ some c
      → HasDefaultLimits c
  unfolding fill
  fill-HasDefaultLimits keys base c l b h =
      elim (Option-cases (aliased keys.grpc_port keys.control_port)) [
        | inl e ↦ absurd (ground (arith, e, h))
        | inr (p, e) ↦ ground (arith, e, h, l, b)
      ]

  valid :
      (c : P2pConfig d)
      → d.in_unit_range d.f32_half ≡ true
      → HasDefaultLimits c
      → validate_config d c ≡ ok
  unfolding validate_config
  valid c half l = ground (arith, half, l)

  -- If the default share of one half counts as between 0 and 1, a configuration read from a
  -- document whose p2p section sets none of the limits passes the checks of startup, whatever else
  -- it sets.
  pub read_app_config_valid :
      (keys : P2pKeys d) (sentry : Option (SentryConfig d)) (c : AppConfig d)
      → d.in_unit_range d.f32_half ≡ true
      → LeavesLimits keys
      → read_app_config d (some keys) sentry ≡ some c
      → validate_config d c.p2p ≡ ok
  unfolding read_app_config
  read_app_config_valid keys sentry c half l h = elim (Option-cases (default_p2p d)) [
    | inl e ↦ absurd (ground (arith, e, h))
    | inr (base, e) ↦ elim (Option-cases (fill d keys base)) [
      | inl f ↦ absurd (ground (arith, e, f, h))
      | inr (p2p, f) ↦
          let limits =
            fill-HasDefaultLimits keys base p2p l (default_p2p-HasDefaultLimits base e) f in
          valid c.p2p half (subst HasDefaultLimits (ground (arith, e, f, h)) limits)
    ]
  ]
