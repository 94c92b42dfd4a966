-- ===== src/Peer/Seen/Recent.antt =====
-- How long an id stays in the bounded set of peer/__init__.py.
use mathlib.Core.List.{append_assoc}
use sonic_watchtower.Prelude.{
  ℕ, ◌+◌, ◌≤◌, ◌<◌, String, ◌≡◌, refl, ap, sym, ◌∙◌, true, false, List, [], ◌∷◌, ◌++◌, arith, ◌==◌,
  eq_iff, eq_refl, leb, length, drop, Bool-cases, inl, inr,
}
use sonic_watchtower.Peer.Seen.{has_seen, without, mark_seen, max_seen_findings}
use sonic_watchtower.Peer.Seen.Refines.{length-append, has_seen-append}
use sonic_watchtower.Peer.Seen.Bounds.{length-without-le}

-- The id is in the set, with at most so many ids after it.
abbrev pub IsRecent : String → ℕ → List String → Type 0
IsRecent fid k seen =
    (older : List String) × (newer : List String) × (seen ≡ older ++ fid ∷ newer)
    × (length newer ≤ k)

pub IsRecent-later :
    (fid : String) (k : ℕ) (xs : List String) → IsRecent fid k xs → IsRecent fid (k + 1) xs
IsRecent-later fid k xs (older, newer, e, few) = (older, newer, e, omega (arith, few))

append-IsRecent :
    (fid x : String) (k : ℕ) (xs : List String)
    → IsRecent fid k xs
    → IsRecent fid (k + 1) (xs ++ x ∷ [])
append-IsRecent fid x k xs (older, newer, e, few) = (
  older,
  newer ++ x ∷ [],
  ap (λ ys. ys ++ x ∷ []) e ∙ append_assoc older (fid ∷ newer) (x ∷ []),
  omega (arith, few, length-append newer (x ∷ [])),
)

without-append :
    (x : String) (xs ys : List String) → without x (xs ++ ys) ≡ without x xs ++ without x ys
unfolding without
without-append x [] ys = refl
without-append x (y ∷ xs) ys = elim (Bool-cases (y == x)) [
  | inl same ↦ rw same (without-append x xs ys)
  | inr other ↦ rw other (ap (λ zs. y ∷ zs) (without-append x xs ys))
]

without-IsRecent :
    (fid x : String) (k : ℕ) (xs : List String)
    → (fid == x) ≡ false
    → IsRecent fid k xs
    → IsRecent fid k (without x xs)
without-IsRecent fid x k xs other (older, newer, e, few) = (
  without x older,
  without x newer,
  ap (without x) e ∙ without-append x older (fid ∷ newer) ∙ unfold without in rw other refl,
  omega (arith, few, length-without-le x newer),
)

drop-IsRecent :
    (fid : String) (k : ℕ) (xs : List String)
    → k + 1 < length xs
    → IsRecent fid k xs
    → IsRecent fid k (drop 1 xs)
drop-IsRecent fid k xs long ([], newer, e, few) = absurd (omega (arith, long, few, ap length e))
drop-IsRecent fid k xs long (y ∷ older, newer, e, few) = (older, newer, ap (drop 1) e, few)

-- An id that is marked stays in the set as long as there is room for those after it.
pub mark_seen-IsRecent :
    (fid x : String) (k : ℕ) (seen : List String)
    → k + 1 < max_seen_findings
    → IsRecent fid k seen
    → IsRecent fid (k + 1) (mark_seen x seen)
unfolding mark_seen
mark_seen-IsRecent fid x k seen room r = elim (Bool-cases (has_seen x seen)) [
  | inl old ↦ rw old (elim (Bool-cases (fid == x)) [
    | inl same ↦
        let e : fid ≡ x = (eq_iff fid x).0 same in
        (without x seen, [], ap (λ y. without x seen ++ y ∷ []) (sym e), omega arith)
    | inr other ↦ append-IsRecent fid x k _ (without-IsRecent fid x k seen other r)
  ])
  | inr new ↦ rw new (
      append-IsRecent fid x k _ (elim (Bool-cases (leb max_seen_findings (length seen))) [
        | inl at_capacity ↦
            rw at_capacity (drop-IsRecent fid k seen (ground (arith, room, at_capacity)) r)
        | inr roomy ↦ rw roomy r
      ]))
]

-- An id that was not in the set is its last one when it is marked.
pub marked-IsRecent :
    (fid : String) (seen : List String)
    → has_seen fid seen ≡ false
    → IsRecent fid 0 (mark_seen fid seen)
unfolding mark_seen
marked-IsRecent fid seen new = rw new (_, [], refl, omega arith)

pub has_seen-IsRecent :
    (fid : String) (k : ℕ) (seen : List String) → IsRecent fid k seen → has_seen fid seen ≡ true
unfolding has_seen
has_seen-IsRecent fid k seen (older, newer, e, few) =
    rw e (has_seen-append fid older (fid ∷ newer) ∙ ground (arith, eq_refl fid))
