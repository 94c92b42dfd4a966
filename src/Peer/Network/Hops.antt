-- ===== src/Peer/Network/Hops.antt =====
-- How far a finding travels: the time to live bounds the links that it crosses.
use mathlib.Core.List.{append-nil, append_cancel_left}
use sonic_watchtower.Prelude.{
  ℕ, ◌+◌, ◌≤◌, ◌<◌, String, ◌≡◌, sym, ◌∙◌, ◌&&◌, List, [], ◌∷◌, ◌++◌, arith, ◌==◌, ltb,
  if◌then◌else◌, Bool-cases, inl, inr, All, All-append, All-append_left, All-append_right, ltb→lt,
  one_of,
}
use sonic_watchtower.Prelude.Clock.{Moment}
use sonic_watchtower.Prelude.Dict.{Dict}
use sonic_watchtower.Config.{WatchtowerConfig}
use sonic_watchtower.Store.{is_event_severity}
use sonic_watchtower.Peer.{Manager, Client, FindingShare, Rpc, share_finding}
use sonic_watchtower.Peer.Calls.{tell_finding, may_share, to_all}
use sonic_watchtower.Peer.Handlers.{gossip, passed_on}
use sonic_watchtower.Peer.Handlers.Findings.{serve_finding_branches}
use sonic_watchtower.Peer.Network.{
  Packet, Network, packets, with_node, Step, tell, serve, lose, work, Reach, here, next,
}
use sonic_watchtower.Peer.Seen.{has_seen}
use sonic_watchtower.Peer.Server.{serve_finding}

-- A packet has hops left, and hops and time to live make at most `n + 1`.
abbrev pub IsBounded : ℕ → Packet → Type 0
IsBounded n p = (1 ≤ p.message.ttl) × (p.hops + p.message.ttl ≤ n + 1)

abbrev pub IsConfigured : {F : Type 0} → ℕ → WatchtowerConfig F → Type 0
IsConfigured n c = (1 ≤ c.peer.finding_ttl) × (c.peer.finding_ttl ≤ n)

pub record IsSound {F : Type 0} (n : ℕ) (net : Network F) : Type 0 where
  pub configured : (host : String) → IsConfigured n (net.node host).config
  pub bounded : All (IsBounded n) net.in_flight

module _ {F : Type 0} where
  -- What `ShareFinding` sends.
  abbrev pub forwarded : FindingShare → Manager F → List (String × Rpc)
  forwarded r m =
      if has_seen r.finding_id m.seen_finding_ids
      then []
      else if is_event_severity r.severity
      then if ltb 1 r.ttl then gossip r.hostname (passed_on m r) m.clients else []
      else []

  pub outbox-serve_finding :
      (now : Moment) (r : FindingShare) (m : Manager F)
      → (serve_finding now r m).1.outbox ≡ m.outbox ++ forwarded r m
  outbox-serve_finding now r m =
      rw serve_finding_branches (elim (Bool-cases (has_seen r.finding_id m.seen_finding_ids)) [
        | inl known ↦ rw known (sym (append-nil m.outbox))
        | inr new ↦ rw new (elim (Bool-cases (is_event_severity r.severity)) [
          | inl valid ↦ rw valid (ground (arith, append-nil m.outbox))
          | inr refused ↦ rw refused (sym (append-nil m.outbox))
        ])
      ])

  config-serve_finding :
      (now : Moment) (r : FindingShare) (m : Manager F)
      → (serve_finding now r m).1.config ≡ m.config
  config-serve_finding now r m =
      rw serve_finding_branches (elim (Bool-cases (has_seen r.finding_id m.seen_finding_ids)) [
        | inl known ↦ rw known
        | inr new ↦ rw new (elim (Bool-cases (is_event_severity r.severity)) [
          | inl valid ↦ rw valid
          | inr refused ↦ rw refused
        ])
      ])

gossip-IsBounded :
    (n hops : ℕ) (sender : String) (msg : FindingShare) (clients : Dict Client)
    → 1 ≤ msg.ttl
    → hops + msg.ttl ≤ n + 1
    → All (IsBounded n) (packets hops (gossip sender msg clients))
unfolding gossip
gossip-IsBounded n hops sender msg [] a b = tt
gossip-IsBounded n hops sender msg ((k, c) ∷ clients) a b = elim (Bool-cases (k == sender)) [
  | inl same ↦ rw same (gossip-IsBounded n hops sender msg clients a b)
  | inr differ ↦ rw differ ((a, b), gossip-IsBounded n hops sender msg clients a b)
]

to_all-IsBounded :
    (n : ℕ) (msg : FindingShare) (clients : Dict Client)
    → 1 ≤ msg.ttl
    → msg.ttl ≤ n
    → All (IsBounded n) (packets 1 (to_all (share_finding msg) clients))
to_all-IsBounded n msg [] a b = tt
to_all-IsBounded n msg (c ∷ clients) a b = ((a, omega arith), to_all-IsBounded n msg clients a b)

around :
    (n : ℕ) (xs ys : List Packet) (p : Packet)
    → All (IsBounded n) (xs ++ p ∷ ys)
    → All (IsBounded n) (xs ++ ys)
around n xs ys p h =
    All-append (IsBounded n) xs ys (All-append_left (IsBounded n) xs (p ∷ ys) h)
      (All-append_right (IsBounded n) xs (p ∷ ys) h).1

hops_of : (n : ℕ) (ps : List Packet) → All (IsBounded n) ps → All (λ p. p.hops ≤ n) ps
hops_of n [] h = tt
hops_of n (p ∷ ps) h = (omega arith, hops_of n ps h.1)

module _ {F : Type 0} (n : ℕ) where
  forwarded-IsBounded :
      (p : Packet) (m : Manager F)
      → IsBounded n p
      → All (IsBounded n) (packets (p.hops + 1) (forwarded p.message m))
  forwarded-IsBounded p m b = elim (Bool-cases (has_seen p.message.finding_id m.seen_finding_ids)) [
    | inl known ↦ rw known tt
    | inr new ↦ rw new (elim (Bool-cases (is_event_severity p.message.severity)) [
      | inl valid ↦ rw valid (elim (Bool-cases (ltb 1 p.message.ttl)) [
        | inl more ↦
            let left : 1 < p.message.ttl = ltb→lt 1 p.message.ttl more in
            rw more (
              gossip-IsBounded n (p.hops + 1) p.message.hostname (passed_on m p.message) m.clients
                (omega arith) (omega arith))
        | inr last ↦ rw last tt
      ])
      | inr refused ↦ rw refused tt
    ])
  ]

  served-IsBounded :
      (now : Moment) (p : Packet) (m : Manager F) (calls : List (String × Rpc))
      → IsBounded n p
      → (serve_finding now p.message m).1.outbox ≡ m.outbox ++ calls
      → All (IsBounded n) (packets (p.hops + 1) calls)
  served-IsBounded now p m calls b e =
      let same : forwarded p.message m ≡ calls =
        append_cancel_left m.outbox (forwarded p.message m) calls
          (sym (outbox-serve_finding now p.message m) ∙ e) in
      rw same at (forwarded-IsBounded p m b)

  told-IsBounded :
      (now : Moment) (fid severity summary scope : String) (m : Manager F)
      (calls : List (String × Rpc))
      → IsConfigured n m.config
      → (tell_finding now fid severity summary scope m).outbox ≡ m.outbox ++ calls
      → All (IsBounded n) (packets 1 calls)
  unfolding tell_finding
  told-IsBounded now fid severity summary scope m calls c e =
      elim (Bool-cases (may_share m && one_of severity ("warning" ∷ "critical" ∷ []))) [
        | inl shared ↦
            rw (← append_cancel_left m.outbox (to_all _ m.clients) calls (rw shared at e))
              (to_all-IsBounded n _ m.clients c.0 c.1)
        | inr kept ↦
            rw (← append_cancel_left m.outbox [] calls (append-nil m.outbox ∙ rw kept at e)) tt
      ]

  config-tell_finding :
      (now : Moment) (fid severity summary scope : String) (m : Manager F)
      → (tell_finding now fid severity summary scope m).config ≡ m.config
  unfolding tell_finding
  config-tell_finding now fid severity summary scope m = ground arith

  with_node-IsConfigured :
      (host : String) (m : Manager F) (node : String → Manager F)
      → m.config ≡ (node host).config
      → ((j : String) → IsConfigured n (node j).config)
      → (j : String) → IsConfigured n (with_node host m node j).config
  with_node-IsConfigured host m node e c j = elim (Bool-cases (j == host)) [
    | inl same ↦ rw same (rw e (c host))
    | inr differ ↦ rw differ (c j)
  ]

  Step-IsSound : {net net' : Network F} → Step net net' → IsSound n net → IsSound n net'
  Step-IsSound {net} (tell host now fid severity summary scope calls e) s = record {
    configured =
        with_node-IsConfigured host _ net.node
          (config-tell_finding now fid severity summary scope (net.node host)) s.configured;
    bounded =
        All-append (IsBounded n) net.in_flight (packets 1 calls) s.bounded (
          told-IsBounded now fid severity summary scope (net.node host) calls (s.configured host)
            e);
  }
  Step-IsSound {net} (serve now before after p calls flight e) s =
      let all : All (IsBounded n) (before ++ p ∷ after) = rw flight at s.bounded in
      record {
        configured =
            with_node-IsConfigured p.to _ net.node
              (config-serve_finding now p.message (net.node p.to)) s.configured;
        bounded =
            All-append (IsBounded n) (before ++ after) (packets (p.hops + 1) calls)
              (around n before after p all)
              (served-IsBounded now p (net.node p.to) calls
                (All-append_right (IsBounded n) before (p ∷ after) all).0 e);
      }
  Step-IsSound {net} (lose before after p flight) s = record {
    configured = s.configured;
    bounded = around n before after p (rw flight at s.bounded);
  }
  Step-IsSound {net} (work host m e) s = record {
    configured = with_node-IsConfigured host m net.node e s.configured;
    bounded = s.bounded;
  }

  Reach-IsSound : {net net' : Network F} → IsSound n net → Reach net net' → IsSound n net'
  Reach-IsSound s here = s
  Reach-IsSound s (next r step) = Step-IsSound step (Reach-IsSound s r)

-- In a network whose switches are all configured with a time to live from 1 to `n`, and where no
-- finding is in flight at first, no finding ever crosses more than `n` links, whatever the order
-- of the steps, the losses and the other work of the switches.
pub Reach-hops_le :
    {F : Type 0} (n : ℕ) {net net' : Network F}
    → net.in_flight ≡ []
    → ((host : String) → IsConfigured n (net.node host).config)
    → Reach net net'
    → All (λ p. p.hops ≤ n) net'.in_flight
Reach-hops_le n {net} {net'} none_yet configured r =
    hops_of n net'.in_flight
      (Reach-IsSound n (record { configured = configured; bounded = rw none_yet tt }) r).bounded
