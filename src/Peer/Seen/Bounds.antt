-- ===== src/Peer/Seen/Bounds.antt =====
-- The set of seen ids of peer/__init__.py stays a set of bounded size, and as a run of calls leaves
-- it, holds the latest ids.
use sonic_watchtower.Prelude.{
  ℕ, zero, suc, ◌≤◌, ◌<◌, String, ◌≡◌, refl, true, false, List, [], ◌∷◌, arith, ◌==◌, eq_iff, leb,
  length, drop, Bool-cases, inl, inr,
}
use sonic_watchtower.Peer.Seen.{has_seen, without, mark_within, mark_seen, max_seen_findings}
use sonic_watchtower.Peer.Seen.Refines.{
  Distinct, note, last_entries, length-append, length-drop, has_seen-append, append-Distinct,
  note-Distinct, mark_within-last_entries,
}

pub record IsSeenSet (cap : ℕ) (seen : List String) : Type 0 where
  pub distinct : Distinct seen
  pub bounded : length seen ≤ cap

pub length-without-le : (k : String) (xs : List String) → length (without k xs) ≤ length xs
unfolding without
length-without-le k [] = omega arith
length-without-le k (x ∷ xs) = ground (arith, length-without-le k xs)

length-without-lt :
    (k : String) (xs : List String) → has_seen k xs ≡ true → length (without k xs) < length xs
unfolding has_seen without
length-without-lt k [] h = cc
length-without-lt k (x ∷ xs) h = elim (Bool-cases (x == k)) [
  | inl same ↦ rw same (omega (arith, length-without-le k xs))
  | inr other ↦ rw other (omega (arith, length-without-lt k xs (ground arith)))
]

drop-Distinct : (n : ℕ) (xs : List String) → Distinct xs → Distinct (drop n xs)
drop-Distinct zero xs u = u
drop-Distinct (suc n) [] u = tt
drop-Distinct (suc n) (x ∷ xs) u = drop-Distinct n xs u.1

has_seen-drop_one :
    (k : String) (xs : List String) → has_seen k xs ≡ false → has_seen k (drop 1 xs) ≡ false
unfolding has_seen
has_seen-drop_one k [] h = refl
has_seen-drop_one k (x ∷ xs) h = ground arith

pub mark_within-IsSeenSet :
    (cap : ℕ) (fid : String) (seen : List String)
    → 0 < cap
    → IsSeenSet cap seen
    → IsSeenSet cap (mark_within cap fid seen)
unfolding mark_within
mark_within-IsSeenSet cap fid seen room s = elim (Bool-cases (has_seen fid seen)) [
  | inl old ↦ rw old (record {
    distinct = note-Distinct fid seen s.distinct;
    bounded = omega (
      arith,
      s.bounded,
      length-without-lt fid seen old,
      length-append (without fid seen) (fid ∷ []),
    );
  })
  | inr new ↦ rw new (elim (Bool-cases (leb cap (length seen))) [
    | inl full ↦ rw full (record {
      distinct =
          append-Distinct fid (drop 1 seen) (drop-Distinct 1 seen s.distinct)
            (has_seen-drop_one fid seen new);
      bounded =
          omega (arith, s.bounded, length-drop 1 seen, length-append (drop 1 seen) (fid ∷ []));
    })
    | inr free ↦ rw free (record {
      distinct = append-Distinct fid seen s.distinct new;
      bounded = ground (arith, length-append seen (fid ∷ []));
    })
  ])
]

pub has_seen-mark_within :
    (cap : ℕ) (fid : String) (seen : List String) → has_seen fid (mark_within cap fid seen) ≡ true
unfolding mark_within has_seen
has_seen-mark_within cap fid seen = ground (
  arith,
  eq_iff fid fid,
  has_seen-append fid (without fid seen) (fid ∷ []),
  has_seen-append fid (drop 1 seen) (fid ∷ []),
  has_seen-append fid seen (fid ∷ []),
)

pub has_seen-mark_seen :
    (fid : String) (seen : List String) → has_seen fid (mark_seen fid seen) ≡ true
unfolding mark_seen
has_seen-mark_seen fid seen = has_seen-mark_within max_seen_findings fid seen

-- A run of calls of `_mark_seen`.
abbrev pub marks : List String → List String → List String
marks [] seen = seen
marks (fid ∷ fids) seen = marks fids (mark_seen fid seen)

-- The same ids noted in a history that forgets nothing.
abbrev pub notes : List String → List String → List String
notes [] h = h
notes (fid ∷ fids) h = notes fids (note fid h)

mark_seen-last_entries :
    (fid : String) (h : List String)
    → Distinct h
    → mark_seen fid (last_entries max_seen_findings h) ≡ last_entries max_seen_findings (note fid h)
unfolding mark_seen
mark_seen-last_entries fid h = mark_within-last_entries max_seen_findings fid h (omega arith)

marks_from :
    (fids h : List String)
    → Distinct h
    → marks fids (last_entries max_seen_findings h) ≡ last_entries max_seen_findings (notes fids h)
marks_from [] h u = refl
marks_from (fid ∷ fids) h u =
    rw (mark_seen-last_entries fid h u) (marks_from fids (note fid h) (note-Distinct fid h u))

-- After any run of calls of `_mark_seen` from the empty set, the set holds exactly the last 1000
-- of the distinct ids that were marked, in the order of their last marking: what is evicted is
-- always the id whose last marking is the oldest.
pub marks-last_entries :
    (fids : List String) → marks fids [] ≡ last_entries max_seen_findings (notes fids [])
marks-last_entries fids = marks_from fids [] tt

-- From a set of distinct ids, at most 1000 of them, any run of calls of `_mark_seen` leaves such a
-- set.
pub marks-IsSeenSet :
    (fids seen : List String)
    → IsSeenSet max_seen_findings seen
    → IsSeenSet max_seen_findings (marks fids seen)
marks-IsSeenSet [] seen s = s
marks-IsSeenSet (fid ∷ fids) seen s =
    marks-IsSeenSet fids (mark_seen fid seen)
      (unfold mark_seen in mark_within-IsSeenSet max_seen_findings fid seen (omega arith) s)
