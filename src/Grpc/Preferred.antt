-- ===== src/Grpc/Preferred.antt =====
-- SetPreferredPeers of src/grpc.rs from the request to the state of the event loop and the response.
use p2p_service.Prelude.{
  sym, length-map, ℕ, ◌-◌, ◌%◌, ◌^◌, ◌<◌, ◌≡◌, ◌≢◌, refl, ap, ◌∙◌, min, Option, none, some, List,
  [], ◌∷◌, map, length, take, length-take, arith, if◌then◌else◌, zero, suc, Option-cases, inl, inr,
}
use p2p_service.HashMap
use p2p_service.HashMap.{HashMap}
use p2p_service.HashMap.Prefix.{get-take, get-absent, take-IsDistinct}
use p2p_service.HashMap.Laws.{get-insert}
use p2p_service.HashSet.{contains, IsDistinct}
use p2p_service.Deps.{Deps}
use p2p_service.Network.{EventLoop, set_preferred_peers, counts}
use p2p_service.Network.Commands.{
  protected_cap, accepted_peers, add_protection, clear_preferred, on_set_preferred_peers,
  handle_command,
}
use p2p_service.Network.Frames.Commands.{on_set_preferred_peers-reply}
use p2p_service.Network.Protection.Loops.{peers_of, add_one}
use p2p_service.Network.Loop.{Input, command, step}
use p2p_service.Network.Client.{read_counts, client_set_preferred_peers}
use p2p_service.Network.Client.Wait.{send_replied}
use p2p_service.Grpc.{PreferredPeer, Shared, parse_peers}
use p2p_service.Grpc.Handlers.{
  GrpcService, replied, handle_set_preferred_peers, or_internal, counts_response,
}
use p2p_service.Grpc.Peers.{first_entry, listed, parse_peers_lem}

module _ (d : Deps) where
  -- One round of the loop over the accepted peers, for a peer that does not come again.
  hint_kept :
      (p q : d.PeerId) (addrs : List d.Multiaddr) (rest : List (d.PeerId × List d.Multiaddr))
      (hints : HashMap d.PeerId (List d.Multiaddr))
      → HashMap.get d.peer_eq q rest ≡ none
      → elim (HashMap.get d.peer_eq p rest) [
        | none ↦ HashMap.get d.peer_eq p (HashMap.insert d.peer_eq q addrs hints)
        | some kept ↦ some kept
      ]
        ≡ elim (HashMap.get d.peer_eq p ((q, addrs) ∷ rest)) [
          | none ↦ HashMap.get d.peer_eq p hints
          | some kept ↦ some kept
        ]
  unfolding HashMap.get
  hint_kept p q addrs rest hints absent = elim (Option-cases (HashMap.get d.peer_eq p rest)) [
    | inl e ↦ ground (arith, e, get-insert d.peer_eq q p addrs hints)
    | inr (kept, e) ↦
        let apart : p ≢ q = λ same. cc (ap (λ x. HashMap.get d.peer_eq x rest) same, e, absent) in
        ground (arith, e, apart)
  ]

  -- The hints after the loop over the accepted peers.
  get-add_protection :
      (p : d.PeerId) (accepted : List (d.PeerId × List d.Multiaddr)) (s : EventLoop d)
      → IsDistinct d.peer_eq (map (λ e. e.0) accepted)
      → HashMap.get d.peer_eq p (add_protection d accepted s).dial_hints
        ≡ elim (HashMap.get d.peer_eq p accepted) [
          | none ↦ HashMap.get d.peer_eq p s.dial_hints
          | some addrs ↦ some addrs
        ]
  unfolding add_protection HashMap.get
  get-add_protection p [] s u = refl
  get-add_protection p ((q, addrs) ∷ rest) s u =
      get-add_protection p rest (add_one d q addrs s) u.1
      ∙ hint_kept p q addrs rest s.dial_hints (get-absent d.peer_eq q rest u.0)

  -- The hints of a peer in the map that the handler works on.
  abbrev hints_of : d.PeerId → EventLoop d → Option (List d.Multiaddr)
  hints_of p s = HashMap.get d.peer_eq p s.dial_hints

  -- The dial hints after the command.
  hints_lem :
      (s : EventLoop d) (entries : List PreferredPeer) (p : d.PeerId) (n : ℕ)
      → let peers = parse_peers d.net [] entries in
        hints_of p (step d s (command (set_preferred_peers peers n))).0 ≡ (
          if contains d.peer_eq p (peers_of d (accepted_peers d s peers))
          then first_entry d.net p entries
          else none)
  unfolding step handle_command on_set_preferred_peers accepted_peers clear_preferred HashMap.get
  hints_lem s entries p n =
      let peers = parse_peers d.net [] entries in
      let cap = protected_cap d s.settings in
      let parsed = parse_peers_lem d.net entries p in
      let distinct = (take-IsDistinct d.peer_eq cap peers parsed.0).0 in
      let found =
        get-add_protection p (take cap peers) (clear_preferred d s (take cap peers)) distinct in
      found
      ∙ with_hints (HashMap.get d.peer_eq p (take cap peers))
      ∙ get-take d.peer_eq p cap peers
      ∙ ap (λ o. if contains d.peer_eq p (peers_of d (take cap peers)) then o else none) parsed.1
    where
      with_hints : (o : Option (List d.Multiaddr)) → elim o [ none ↦ none | some a ↦ some a ] ≡ o
      with_hints none = refl
      with_hints (some a) = refl

  response :
      (s : EventLoop d) (peers : List (d.PeerId × List d.Multiaddr))
      → length peers < 2 ^ 32
      → or_internal counts_response (
          read_counts d (
            counts
              (length (accepted_peers d s peers) % 2 ^ 32)
              ((length peers - protected_cap d s.settings) % 2 ^ 32)))
        ≡ replied (record {
          accepted = min (protected_cap d s.settings) (length peers);
          truncated = length peers - protected_cap d s.settings;
        })
  unfolding or_internal read_counts accepted_peers
  response s peers small =
      let cap = protected_cap d s.settings in
      let accepted : length (take cap peers) % 2 ^ 32 ≡ min cap (length peers) =
        omega (arith, length-take cap peers, small) in
      let truncated : (length peers - cap) % 2 ^ 32 ≡ length peers - cap = omega (arith, small) in
      rw (accepted, truncated) refl

  by_parsed :
      (s : EventLoop d) (later : List (Input d)) (shared : Shared d.broadcast)
      (local_peer_id : d.PeerId) (n : ℕ) (entries : List PreferredPeer) (p : d.PeerId)
      → length (parse_peers d.net [] entries) < 2 ^ 32
      → let peers = parse_peers d.net [] entries in
        let service : GrpcService d = record {
          client = record { event_loop = some s; later = later };
          shared = shared;
          local_peer_id = local_peer_id;
        } in
        (handle_set_preferred_peers d service n entries
          ≡ replied (record {
            accepted = min (protected_cap d s.settings) (length peers);
            truncated = length peers - protected_cap d s.settings;
          }))
        × (hints_of p (step d s (command (set_preferred_peers peers n))).0 ≡ (
            if contains d.peer_eq p (peers_of d (accepted_peers d s peers))
            then first_entry d.net p entries
            else none))
  unfolding handle_set_preferred_peers client_set_preferred_peers or_internal read_counts step
      handle_command
  by_parsed s later shared local_peer_id n entries p small =
      let peers = parse_peers d.net [] entries in
      (
        rw
            (send_replied d n (read_counts d) s later (set_preferred_peers peers n) _
              (on_set_preferred_peers-reply d s peers n))
            (response s peers small),
        hints_lem s entries p n,
      )

  map-take :
      (k : ℕ) (peers : List (d.PeerId × List d.Multiaddr))
      → peers_of d (take k peers) ≡ take k (peers_of d peers)
  map-take zero peers = refl
  map-take (suc k) [] = refl
  map-take (suc k) (e ∷ peers) = ap (λ l. e.0 ∷ l) (map-take k peers)

  -- On a running event loop, for a request in which fewer than 2^32 different peers have an entry
  -- whose id parses, SetPreferredPeers replies that as many of these peers are accepted as the
  -- share of high_water allows and that the others are truncated; and afterwards the event loop
  -- keeps as dial hints of a peer that is among the first so many, in the order of their first
  -- entries, all addresses of its first entry that parse, in order, and no hints of any other
  -- peer.
  pub handle_set_preferred_peers_lem :
      (s : EventLoop d) (later : List (Input d)) (shared : Shared d.broadcast)
      (local_peer_id : d.PeerId) (n : ℕ) (entries : List PreferredPeer) (p : d.PeerId)
      → length (listed d.net entries) < 2 ^ 32
      → let ids = listed d.net entries in
        let cap =
          d.usize_of_f32
            (d.f32_mul (d.f32_of_usize s.settings.high_water) s.settings.max_protected_share) in
        let service : GrpcService d = record {
          client = record { event_loop = some s; later = later };
          shared = shared;
          local_peer_id = local_peer_id;
        } in
        (handle_set_preferred_peers d service n entries
          ≡ replied (record { accepted = min cap (length ids); truncated = length ids - cap }))
        × (hints_of p (step d s (command (set_preferred_peers (parse_peers d.net [] entries) n))).0
            ≡ (if contains d.peer_eq p (take cap ids) then first_entry d.net p entries else none))
  unfolding protected_cap accepted_peers
  handle_set_preferred_peers_lem s later shared local_peer_id n entries p small =
      let peers = parse_peers d.net [] entries in
      let cap = protected_cap d s.settings in
      let same : peers_of d peers ≡ listed d.net entries = (parse_peers_lem d.net entries p).2 in
      let long : length peers ≡ length (listed d.net entries) =
        sym (length-map (λ (e : d.PeerId × List d.Multiaddr). e.0) peers) ∙ ap length same in
      let first : peers_of d (take cap peers) ≡ take cap (listed d.net entries) =
        map-take cap peers ∙ ap (take cap) same in
      let did = by_parsed s later shared local_peer_id n entries p (omega (arith, long, small)) in
      (
        did.0 ∙ ap (λ k. replied (record { accepted = min cap k; truncated = k - cap })) long,
        did.1
            ∙ ap (λ l. if contains d.peer_eq p l then first_entry d.net p entries else none) first,
      )
