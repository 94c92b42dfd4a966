-- ===== src/Peer/Handlers/Remembering.antt =====
-- How long a switch knows a finding that a peer shared (peer/server.py, peer/__init__.py).
use sonic_watchtower.Prelude.{
  ℕ, ◌+◌, ◌<◌, String, ◌≡◌, refl, ◌∙◌, true, false, List, [], ◌∷◌, arith, length, if◌then◌else◌,
  Bool-cases, inl, inr,
}
use sonic_watchtower.Prelude.Clock.{Moment}
use sonic_watchtower.Store.{is_event_severity}
use sonic_watchtower.Peer.{Manager, FindingShare}
use sonic_watchtower.Peer.Seen.{has_seen, mark_seen}
use sonic_watchtower.Peer.Seen.Recent.{
  IsRecent, IsRecent-later, mark_seen-IsRecent, marked-IsRecent, has_seen-IsRecent,
}
use sonic_watchtower.Peer.Server.{serve_finding}
use sonic_watchtower.Peer.Handlers.Findings.{serve_finding_branches}

module _ {F : Type 0} where
  -- `ShareFinding` for each request, one after the other.
  abbrev pub served_all : List (Moment × FindingShare) → Manager F → Manager F
  served_all [] m = m
  served_all ((now, r) ∷ rs) m = served_all rs (serve_finding now r m).1

  seen-served :
      (now : Moment) (r : FindingShare) (m : Manager F)
      → (serve_finding now r m).1.seen_finding_ids ≡ (
          if has_seen r.finding_id m.seen_finding_ids
          then m.seen_finding_ids
          else mark_seen r.finding_id m.seen_finding_ids)
  seen-served now r m =
      rw serve_finding_branches (elim (Bool-cases (has_seen r.finding_id m.seen_finding_ids)) [
        | inl known ↦ rw known refl
        | inr new ↦ rw new (elim (Bool-cases (is_event_severity r.severity)) [
          | inl valid ↦ rw valid refl
          | inr other ↦ rw other refl
        ])
      ])

  served-IsRecent :
      (fid : String) (k : ℕ) (now : Moment) (r : FindingShare) (m : Manager F)
      → k + 1 < 1000
      → IsRecent fid k m.seen_finding_ids
      → IsRecent fid (k + 1) (serve_finding now r m).1.seen_finding_ids
  served-IsRecent fid k now r m room recent =
      rw (seen-served now r m) (elim (Bool-cases (has_seen r.finding_id m.seen_finding_ids)) [
        | inl known ↦ rw known (IsRecent-later fid k m.seen_finding_ids recent)
        | inr new ↦ rw new (mark_seen-IsRecent fid r.finding_id k m.seen_finding_ids room recent)
      ])

  served_all-known :
      (fid : String) (k : ℕ) (rs : List (Moment × FindingShare)) (m : Manager F)
      → k + length rs < 1000
      → IsRecent fid k m.seen_finding_ids
      → has_seen fid (served_all rs m).seen_finding_ids ≡ true
  served_all-known fid k [] m few recent = has_seen-IsRecent fid k m.seen_finding_ids recent
  served_all-known fid k ((now, r) ∷ rs) m few recent =
      served_all-known fid (k + 1) rs (serve_finding now r m).1 (omega (arith, few))
        (served-IsRecent fid k now r m (omega (arith, few)) recent)

  -- Once a finding with a new id was served, accepted or not, and at most 999 requests after it,
  -- whatever they are, a finding with the same id from any peer is answered as accepted and already
  -- seen, and changes nothing: no second event, and no gossip.
  pub serve_finding-remembered :
      (now later : Moment) (r r' : FindingShare) (rs : List (Moment × FindingShare)) (m : Manager F)
      → has_seen r.finding_id m.seen_finding_ids ≡ false
      → length rs < 1000
      → r'.finding_id ≡ r.finding_id
      → let served = served_all rs (serve_finding now r m).1 in
        serve_finding later r' served ≡ ((true, true), served)
  serve_finding-remembered now later r r' rs m new few e =
      let m' = (serve_finding now r m).1 in
      let marked : IsRecent r.finding_id 0 m'.seen_finding_ids =
        rw (seen-served now r m, new) (marked-IsRecent r.finding_id m.seen_finding_ids new) in
      let known = served_all-known r.finding_id 0 rs m' (omega (arith, few)) marked in
      let same : has_seen r'.finding_id (served_all rs m').seen_finding_ids ≡ true = rw e known in
      serve_finding_branches later r' (served_all rs m') ∙ rw same refl
