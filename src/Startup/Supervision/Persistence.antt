-- ===== src/Startup/Supervision/Persistence.antt =====
-- What the next start of src/main.rs loads: the peerstore of the last save that went through.
use p2p_service.Prelude.{
  ◌≡◌, ◌≢◌, ◌↔◌, refl, Bool, ◌&&◌, Option, some, is_some, String, String_discrete, List, [], ◌∷◌,
  ◌++◌, drop, if◌then◌else◌, arith, Bool-cases, inl, inr, ap, ◌∙◌, ◌⊎◌,
}
use p2p_service.HashMap
use p2p_service.Peerstore.{PeerStore}
use p2p_service.Peerstore.File.{Files, load, load-save, save_failed, save_ok, is_written}
use p2p_service.Startup.Supervision.{
  Ended, sigint, sigterm, p2p_event_loop, grpc_server, maintenance, peerstore_flusher, metrics_http,
  Tick, exit_code, flush, flush_ticks, flush_loop, supervise,
}

module _ (to_json : PeerStore → Option String) (from_json : String → Option PeerStore)
    (tmp_path path : String) where
  -- The save of a tick goes through: the store serialises, is written whole, and renamed.
  unfoldable pub lands : Tick → Bool
  lands tick =
      is_some (to_json tick.store) && is_written tick.outcomes.write && tick.outcomes.renamed

  -- The store of the last save that goes through, `initial` if there is none.
  unfoldable pub survivor : (initial : PeerStore) → List Tick → PeerStore
  survivor initial [] = initial
  survivor initial (tick ∷ ticks) = survivor (if lands tick then tick.store else initial) ticks

  -- A loaded file depends on nothing but what its path holds.
  load_same :
      (fs fs' : Files)
      → HashMap.get String_discrete path fs' ≡ HashMap.get String_discrete path fs
      → load to_json from_json fs' path ≡ load to_json from_json fs path
  unfolding load
  load_same fs fs' h = rw (h, load) refl

  -- The serialiser round-trips: what is written of a store parses back to it.
  abbrev pub RoundTrips : Type 0
  RoundTrips =
      (store : PeerStore) (contents : String)
      → to_json store ≡ some contents
      → from_json contents ≡ some store

  code : (ended : Ended) → (exit_code ended ≡ 0) ↔ ((ended ≡ sigint) ⊎ (ended ≡ sigterm))
  unfolding exit_code
  code sigint = (λ e. inl refl, λ e. refl)
  code sigterm = (λ e. inr refl, λ e. refl)
  code p2p_event_loop = ground arith
  code grpc_server = ground arith
  code maintenance = ground arith
  code peerstore_flusher = ground arith
  code metrics_http = ground arith

  module _ (apart : tmp_path ≢ path) (trips : RoundTrips) where
    load-flush :
        (fs : Files) (tick : Tick)
        → load to_json from_json (flush to_json from_json tmp_path path fs tick) path
          ≡ (if lands tick then tick.store else load to_json from_json fs path)
    unfolding flush lands
    load-flush fs tick =
        let success = save_ok to_json from_json tick.store fs tmp_path path tick.outcomes in
        elim (Bool-cases (lands tick)) [
          | inl yes_lands ↦ rw yes_lands (
              load-save to_json from_json tick.store fs tmp_path path tick.outcomes apart
                (trips tick.store) (success ∙ yes_lands))
          | inr no_lands ↦ rw no_lands (
              load_same fs _ (
                save_failed to_json from_json tick.store fs tmp_path path tick.outcomes apart
                  (success ∙ no_lands)))
        ]

    load-flush_ticks :
        (fs : Files) (ticks : List Tick) (final : Tick)
        → load to_json from_json
            (flush to_json from_json tmp_path path
              (flush_ticks to_json from_json tmp_path path fs ticks)
              final)
            path
          ≡ survivor (load to_json from_json fs path) (ticks ++ final ∷ [])
    unfolding flush_ticks survivor
    load-flush_ticks fs [] final = load-flush fs final
    load-flush_ticks fs (tick ∷ ticks) final =
        load-flush_ticks (flush to_json from_json tmp_path path fs tick) ticks final
        ∙ ap (λ s. survivor s (ticks ++ final ∷ [])) (load-flush fs tick)

    -- If the path of the temporary file is another one and what the serialiser writes parses back,
    -- the peerstore that the next start loads is that of the last save that went through, the
    -- final one or one of the flusher, whose first tick is skipped, and else the one that was
    -- loaded before; and the exit code is 0 exactly if a signal ended the process.
    pub load-supervise :
        (fs : Files) (ticks : List Tick) (ended : Ended) (final : Tick)
        → let r = supervise to_json from_json tmp_path path fs ticks ended final in
          (load to_json from_json r.0 path
            ≡ survivor (load to_json from_json fs path) (drop 1 ticks ++ final ∷ []))
          × ((r.1 ≡ 0) ↔ ((ended ≡ sigint) ⊎ (ended ≡ sigterm)))
    unfolding supervise flush_loop flush_ticks survivor
    load-supervise fs [] ended final = (load-flush fs final, code ended)
    load-supervise fs (first ∷ ticks) ended final = (load-flush_ticks fs ticks final, code ended)
