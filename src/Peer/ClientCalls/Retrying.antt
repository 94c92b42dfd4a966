-- ===== src/Peer/ClientCalls/Retrying.antt =====
-- What a sender of findings learns from its calls, and what a second attempt does.
use sonic_watchtower.Prelude.{◌≡◌, refl, ap, ◌∙◌, true, false, inl, inr, if◌then◌else◌, Bool-cases}
use sonic_watchtower.Prelude.Clock.{Moment}
use sonic_watchtower.Prelude.Exec.{ok}
use sonic_watchtower.Store.{is_event_severity}
use sonic_watchtower.Peer.{Manager, FindingShare}
use sonic_watchtower.Peer.Handlers.Findings.{
  serve_finding_branches, serve_finding_again, after_accept, after_refusal,
}
use sonic_watchtower.Peer.Seen.{has_seen}
use sonic_watchtower.Peer.Server.{serve_finding}
use sonic_watchtower.Peer.ClientCalls.{answered, unreached, unanswered, share_finding}

module _ {F : Type 0} where
  -- What a peer becomes by a finding that reaches it.
  abbrev pub served : Moment → FindingShare → Manager F → Manager F
  served now r peer =
      if has_seen r.finding_id peer.seen_finding_ids
      then peer
      else if is_event_severity r.severity
      then after_accept now r peer
      else after_refusal r peer

  serve_finding-served :
      (now : Moment) (r : FindingShare) (peer : Manager F)
      → (serve_finding now r peer).1 ≡ served now r peer
  serve_finding-served now r peer =
      rw serve_finding_branches (elim (Bool-cases (has_seen r.finding_id peer.seen_finding_ids)) [
        | inl known ↦ rw known refl
        | inr new ↦ rw new (elim (Bool-cases (is_event_severity r.severity)) [
          | inl valid ↦ rw valid refl
          | inr refused ↦ rw refused refl
        ])
      ])

  -- A call without an answer tells the sender the same, (False, False), whether it reached the peer
  -- or not; what an answered one and an unanswered one that is served make of the peer is the
  -- same. A second attempt that is answered goes as a first one does if the first did not reach the
  -- peer; and if it did, it changes nothing and is answered as accepted and already seen.
  pub share_finding-retry :
      (now later : Moment) (r : FindingShare) (peer : Manager F)
      → (share_finding unreached now r peer ≡ (ok (false, false), peer))
        × (share_finding unanswered now r peer ≡ (ok (false, false), served now r peer))
        × ((share_finding answered now r peer).1 ≡ served now r peer)
        × (share_finding answered later r (share_finding unreached now r peer).1
            ≡ share_finding answered later r peer)
        × (share_finding answered later r (share_finding unanswered now r peer).1
            ≡ (ok (true, true), served now r peer))
  unfolding share_finding
  share_finding-retry now later r peer =
      let same = serve_finding-served now r peer in
      (
        refl,
        ap (λ p. (ok (false, false), p)) same,
        same,
        refl,
        ap (λ p. (ok p.0, p.1)) (serve_finding_again now later r r peer refl)
            ∙ ap (λ p. (ok (true, true), p)) same,
      )
