-- ===== src/Peer/Network/Settling.antt =====
-- The gossip of findings dies out: how many deliveries follow from what is in flight.
use mathlib.Core.List.{append_cancel_left}
use sonic_watchtower.Prelude.{
  ℕ, zero, suc, ◌+◌, ◌-◌, ◌≤◌, ◌<◌, String, ◌≡◌, refl, sym, ap, ◌∙◌, ◌⊎◌, inl, inr, List, [], ◌∷◌,
  ◌++◌, arith, ◌==◌, ltb, Bool-cases, ltb→lt, length, List-cases,
}
use sonic_watchtower.Prelude.Clock.{Moment}
use sonic_watchtower.Prelude.Dict.{Dict}
use sonic_watchtower.Store.{is_event_severity}
use sonic_watchtower.Peer.{Manager, Client, FindingShare}
use sonic_watchtower.Peer.Handlers.{gossip, passed_on}
use sonic_watchtower.Peer.Handlers.Findings.{serve_finding_branches}
use sonic_watchtower.Peer.Network.{Packet, Network, packets, Step, tell, serve, lose, work}
use sonic_watchtower.Peer.Network.Hops.{forwarded, outbox-serve_finding}
use sonic_watchtower.Peer.Seen.{has_seen}
use sonic_watchtower.Peer.Server.{serve_finding}

-- `c` times `w`
abbrev times : ℕ → ℕ → ℕ
times zero w = 0
times (suc c) w = w + times c w

-- How many deliveries a finding can cause that has so many hops left, where no switch has more
-- than `c` clients: (c + 1) ^ ttl.
abbrev pub deliveries : ℕ → ℕ → ℕ
deliveries c zero = 1
deliveries c (suc ttl) = deliveries c ttl + times c (deliveries c ttl)

abbrev pub all_deliveries : ℕ → List Packet → ℕ
all_deliveries c [] = 0
all_deliveries c (p ∷ ps) = deliveries c p.message.ttl + all_deliveries c ps

-- The steps in which a packet arrives or is lost.
abbrev pub IsDelivery : {F : Type 0} {u v : Network F} → Step u v → Type 0
IsDelivery (tell host now fid severity summary scope calls e) = ⊥
IsDelivery (serve now before after p calls flight e) = Unit
IsDelivery (lose before after p flight) = Unit
IsDelivery (work host m e) = ⊥

-- So many deliveries, in a row.
pub data Run {F : Type 0} (net : Network F) : ℕ → Network F → Type 0 where
  idle : Run net 0 net
  and_then :
      {n : ℕ} {u v : Network F} → Run net n u → (s : Step u v) → IsDelivery s → Run net (n + 1) v

-- No switch has more than `c` clients.
abbrev pub HasClients : {F : Type 0} → ℕ → Network F → Type 0
HasClients c net = (host : String) → length (net.node host).clients ≤ c

deliveries-pos : (c ttl : ℕ) → 1 ≤ deliveries c ttl
deliveries-pos c zero = omega arith
deliveries-pos c (suc ttl) = omega (arith, deliveries-pos c ttl)

times_mono : (k c w : ℕ) → k ≤ c → times k w ≤ times c w
times_mono zero c w h = omega arith
times_mono (suc k) zero w h = absurd (omega (arith, h))
times_mono (suc k) (suc c) w h = omega (arith, times_mono k c w (omega (arith, h)))

all_deliveries-append :
    (c : ℕ) (ps qs : List Packet)
    → all_deliveries c (ps ++ qs) ≡ all_deliveries c ps + all_deliveries c qs
all_deliveries-append c [] qs = omega arith
all_deliveries-append c (p ∷ ps) qs = omega (arith, all_deliveries-append c ps qs)

all_deliveries-gossip :
    (c hops : ℕ) (sender : String) (msg : FindingShare) (clients : Dict Client)
    → all_deliveries c (packets hops (gossip sender msg clients))
      ≤ times (length clients) (deliveries c msg.ttl)
unfolding gossip
all_deliveries-gossip c hops sender msg [] = omega arith
all_deliveries-gossip c hops sender msg ((k, client) ∷ clients) = elim (Bool-cases (k == sender)) [
  | inl same ↦ rw same (omega (arith, all_deliveries-gossip c hops sender msg clients))
  | inr differ ↦ rw differ (omega (arith, all_deliveries-gossip c hops sender msg clients))
]

-- With hops left for one link more, the copies to at most `c` clients cause fewer deliveries than
-- the finding counts for.
fewer :
    (c ttl hops : ℕ) (sender : String) (msg : FindingShare) (clients : Dict Client)
    → length clients ≤ c
    → 1 < ttl
    → msg.ttl ≡ ttl - 1
    → all_deliveries c (packets hops (gossip sender msg clients)) < deliveries c ttl
fewer c zero hops sender msg clients h more e = absurd (omega (arith, more))
fewer c (suc ttl) hops sender msg clients h more e =
    let less : msg.ttl ≡ ttl = omega (arith, e) in
    let same = ap (λ t. times c (deliveries c t)) less in
    omega (
      arith,
      same,
      all_deliveries-gossip c hops sender msg clients,
      times_mono (length clients) c (deliveries c msg.ttl) h,
      deliveries-pos c ttl,
    )

module _ {F : Type 0} (c : ℕ) where
  forwarded_fewer :
      (hops : ℕ) (r : FindingShare) (m : Manager F)
      → length m.clients ≤ c
      → all_deliveries c (packets hops (forwarded r m)) < deliveries c r.ttl
  forwarded_fewer hops r m h = elim (Bool-cases (has_seen r.finding_id m.seen_finding_ids)) [
    | inl known ↦ rw known (deliveries-pos c r.ttl)
    | inr new ↦ rw new (elim (Bool-cases (is_event_severity r.severity)) [
      | inl valid ↦ rw valid (elim (Bool-cases (ltb 1 r.ttl)) [
        | inl more ↦
            rw more
              (fewer c r.ttl hops r.hostname (passed_on m r) m.clients h (ltb→lt 1 r.ttl more) refl)
        | inr last ↦ rw last (deliveries-pos c r.ttl)
      ])
      | inr refused ↦ rw refused (deliveries-pos c r.ttl)
    ])
  ]

  clients-serve_finding :
      (now : Moment) (r : FindingShare) (m : Manager F)
      → (serve_finding now r m).1.clients ≡ m.clients
  clients-serve_finding now r m =
      rw serve_finding_branches (elim (Bool-cases (has_seen r.finding_id m.seen_finding_ids)) [
        | inl known ↦ rw known
        | inr new ↦ rw new (elim (Bool-cases (is_event_severity r.severity)) [
          | inl valid ↦ rw valid
          | inr refused ↦ rw refused
        ])
      ])

  Step-HasClients :
      {u v : Network F} (s : Step u v) → IsDelivery s → HasClients c u → HasClients c v
  Step-HasClients (tell host now fid severity summary scope calls e) d h = absurd d
  Step-HasClients {u} (serve now before after p calls flight e) d h = λ host.
      elim (Bool-cases (host == p.to)) [
        | inl same ↦ rw (same, clients-serve_finding now p.message (u.node p.to)) (h p.to)
        | inr differ ↦ rw differ (h host)
      ]
  Step-HasClients (lose before after p flight) d h = h
  Step-HasClients (work host m e) d h = absurd d

  -- Each delivery uses up at least one.
  Step-fewer :
      {u v : Network F} (s : Step u v)
      → IsDelivery s
      → HasClients c u
      → all_deliveries c v.in_flight < all_deliveries c u.in_flight
  Step-fewer (tell host now fid severity summary scope calls e) d h = absurd d
  Step-fewer {u} (serve now before after p calls flight e) d h =
      let m = u.node p.to in
      let same : forwarded p.message m ≡ calls =
        append_cancel_left m.outbox (forwarded p.message m) calls
          (sym (outbox-serve_finding now p.message m) ∙ e) in
      let less = rw same at (forwarded_fewer (p.hops + 1) p.message m (h p.to)) in
      rw flight (
        omega (
          arith,
          less,
          all_deliveries-append c (before ++ after) (packets (p.hops + 1) calls),
          all_deliveries-append c before after,
          all_deliveries-append c before (p ∷ after),
        ))
  Step-fewer {u} (lose before after p flight) d h = rw flight (
      omega (
        arith,
        deliveries-pos c p.message.ttl,
        all_deliveries-append c before after,
        all_deliveries-append c before (p ∷ after),
      ))
  Step-fewer (work host m e) d h = absurd d

  Run-HasClients : {net v : Network F} {n : ℕ} → HasClients c net → Run net n v → HasClients c v
  Run-HasClients h idle = h
  Run-HasClients h (and_then r s d) = Step-HasClients s d (Run-HasClients h r)

  Run-fewer :
      {net v : Network F} {n : ℕ}
      → HasClients c net
      → Run net n v
      → n + all_deliveries c v.in_flight ≤ all_deliveries c net.in_flight
  Run-fewer h idle = omega arith
  Run-fewer h (and_then r s d) = omega (arith, Run-fewer h r, Step-fewer s d (Run-HasClients h r))

-- While anything is in flight, something can be delivered.
deliverable :
    {F : Type 0} (now : Moment) (net : Network F)
    → (net.in_flight ≡ []) ⊎ ((v : Network F) × (s : Step net v) × IsDelivery s)
deliverable now net = elim (List-cases net.in_flight) [
  | inl empty ↦ inl empty
  | inr (p, ps, full) ↦ inr (
    _,
    serve now [] ps p (forwarded p.message (net.node p.to)) full
        (outbox-serve_finding now p.message (net.node p.to)),
    tt,
  )
]

-- In a network whose switches have at most `c` clients each, deliveries come to an end: no more of them
-- follow one another, in whatever order and with whatever losses, than the sum of
-- (c + 1) ^ ttl over what is in flight; and as long as anything is in flight, a delivery is possible.
pub Run-deliveries :
    {F : Type 0} (c n : ℕ) (now : Moment) (net v : Network F)
    → HasClients c net
    → Run net n v
    → (n ≤ all_deliveries c net.in_flight)
      × ((v.in_flight ≡ []) ⊎ ((w : Network F) × (s : Step v w) × IsDelivery s))
Run-deliveries c n now net v h r = (omega (arith, Run-fewer c h r), deliverable now v)
