-- ===== src/Peer/Calls/Clients.antt =====
-- Which clients `refresh_peers` of peer/__init__.py leaves, and what `_get_current_severity` says.
use sonic_watchtower.Prelude.{
  String, ◌≡◌, refl, ap, ◌∙◌, Bool, true, not, ◌&&◌, ◌||◌, List, [], ◌∷◌, arith, ◌==◌, eq_iff,
  eq_refl, if◌then◌else◌, one_of, map, select, Bool-cases, inl, inr,
}
use sonic_watchtower.Prelude.Dict.{Dict, has_key, NodupKeys, has_key-insert, insert-NodupKeys}
use sonic_watchtower.Peer.{Manager, Client, System}
use sonic_watchtower.Peer.Discovery.{PeerEndpoint, discover_peers}
use sonic_watchtower.Peer.Calls.{
  connect_peer, connect_new, drop_stale, refresh_peers, tls_available, tls_readable,
}

abbrev pub names : List PeerEndpoint → List String
names eps = map (λ ep. ep.hostname) eps

has_key-drop_stale :
    (discovered : List String) (host : String) (clients : Dict Client)
    → has_key host (drop_stale discovered clients)
      ≡ (has_key host clients && one_of host discovered)
unfolding drop_stale select has_key
has_key-drop_stale discovered host [] = refl
has_key-drop_stale discovered host ((k, c) ∷ clients) = elim (Bool-cases (k == host)) [
  | inl same ↦
      let e : k ≡ host = (eq_iff k host).0 same in
      rw (← e) (elim (Bool-cases (one_of k discovered)) [
        | inl known ↦ rw known (ground (arith, eq_refl k))
        | inr gone ↦ rw gone (
            rw (← e) at (has_key-drop_stale discovered host clients)
            ∙ rw gone (ground (arith, eq_refl k)))
      ])
  | inr other ↦ elim (Bool-cases (one_of k discovered)) [
    | inl known ↦ rw known (ground (arith, other, has_key-drop_stale discovered host clients))
    | inr gone ↦ rw gone (ground (arith, other, has_key-drop_stale discovered host clients))
  ]
]

drop_stale-NodupKeys :
    (discovered : List String) (clients : Dict Client)
    → NodupKeys clients
    → NodupKeys (drop_stale discovered clients)
unfolding drop_stale select
drop_stale-NodupKeys discovered [] u = tt
drop_stale-NodupKeys discovered ((k, c) ∷ clients) (fresh, u) =
    elim (Bool-cases (one_of k discovered)) [
      | inl known ↦ rw known (
        has_key-drop_stale discovered k clients ∙ ground (arith, fresh),
        drop_stale-NodupKeys discovered clients u,
      )
      | inr gone ↦ rw gone (drop_stale-NodupKeys discovered clients u)
    ]

module _ {F : Type 0} (sys : System) where
  -- A client can be made: the credentials can be read, if there are any.
  abbrev pub can_connect : Manager F → Bool
  can_connect m =
      not (tls_available sys m.config.peer.tls && not (tls_readable sys m.config.peer.tls))

  -- What one attempt to connect leaves.
  record Connected (ep : PeerEndpoint) (m m' : Manager F) : Type 0 where
    known :
        (host : String)
        → has_key host m'.clients
          ≡ (has_key host m.clients || (ep.hostname == host && can_connect m))
    same_config : m'.config ≡ m.config
    distinct : NodupKeys m.clients → NodupKeys m'.clients

  connect_peer-Connected :
      (ep : PeerEndpoint) (m : Manager F) → Connected ep m (connect_peer sys ep m)
  unfolding connect_peer
  connect_peer-Connected ep m =
      elim (Bool-cases
        (tls_available sys m.config.peer.tls && not (tls_readable sys m.config.peer.tls))) [
          | inl refused ↦ rw refused (record {
            known = λ host. rw refused (ground arith);
            same_config = refl;
            distinct = λ u. u;
          })
          | inr free ↦ rw free (record {
            known = λ host. rw free (has_key-insert ep.hostname host _ m.clients ∙ ground arith);
            same_config = refl;
            distinct = λ u. insert-NodupKeys ep.hostname _ m.clients u;
          })
        ]

  connect_new-clients :
      (eps : List PeerEndpoint) (m : Manager F)
      → ((host : String)
          → has_key host (connect_new sys eps m).clients
            ≡ (has_key host m.clients || (one_of host (names eps) && can_connect m)))
        × (NodupKeys m.clients → NodupKeys (connect_new sys eps m).clients)
  unfolding connect_new
  connect_new-clients [] m = (λ host. ground arith, λ u. u)
  connect_new-clients (ep ∷ eps) m = elim (Bool-cases (has_key ep.hostname m.clients)) [
    | inl old ↦
        rw (old, connect_new)
          (let i = connect_new-clients eps m in
            (λ host. i.0 host ∙ known_already ep.hostname host (names eps) m old, i.1))
    | inr new ↦
        rw (new, connect_new)
          (let c = connect_peer-Connected ep m in
            let i = connect_new-clients eps (connect_peer sys ep m) in
            (
              λ host.
                  i.0 host
                  ∙ rw c.same_config (
                      ground
                        (arith, c.known host, eq_iff ep.hostname host, eq_iff host ep.hostname)),
              λ u. i.1 (c.distinct u),
            ))
  ]
    where
      known_already :
          (k host : String) (hosts : List String) (m : Manager F)
          → has_key k m.clients ≡ true
          → (has_key host m.clients || (one_of host hosts && can_connect m))
            ≡ (has_key host m.clients || (one_of host (k ∷ hosts) && can_connect m))
      known_already k host hosts m old = elim (Bool-cases (host == k)) [
        | inl same ↦
            let e : host ≡ k = (eq_iff host k).0 same in
            let there : has_key host m.clients ≡ true = rw e old in rw there refl
        | inr other ↦ rw other refl
      ]

  refresh_peers-enabled :
      (m : Manager F)
      → m.enabled ≡ true
      → (refresh_peers sys m).clients
        ≡ drop_stale
            (names (discover_peers sys.getaddrinfo m.config.peer.port m.store))
            (connect_new sys (discover_peers sys.getaddrinfo m.config.peer.port m.store) m).clients
  unfolding refresh_peers
  refresh_peers-enabled m on =
      let eps = discover_peers sys.getaddrinfo m.config.peer.port m.store in
      let m' : Manager F = connect_new sys eps m in
      let left : Manager F = record m' { clients = drop_stale (names eps) m'.clients } in
      ap (λ b. (if b then left else m).clients) on

  -- When the protocol is enabled, `refresh_peers` leaves a client for a host exactly if the host was
  -- discovered and either had a client already or can be connected to; and the hosts of the clients
  -- are distinct if they were.
  pub refresh_peers-clients :
      (m : Manager F) (host : String)
      → m.enabled ≡ true
      → NodupKeys m.clients
      → (has_key host (refresh_peers sys m).clients ≡ (
          one_of host (names (discover_peers sys.getaddrinfo m.config.peer.port m.store))
          && (has_key host m.clients || can_connect m)))
        × NodupKeys (refresh_peers sys m).clients
  refresh_peers-clients m host on u =
      let eps = discover_peers sys.getaddrinfo m.config.peer.port m.store in
      let c = connect_new-clients eps m in
      rw (refresh_peers-enabled m on) (
        has_key-drop_stale (names eps) host (connect_new sys eps m).clients
            ∙ ground (arith, c.0 host),
        drop_stale-NodupKeys (names eps) (connect_new sys eps m).clients (c.1 u),
      )
