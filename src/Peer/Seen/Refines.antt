-- ===== src/Peer/Seen/Refines.antt =====
-- The bounded set of seen ids of peer/__init__.py against a set that forgets nothing.
use sonic_watchtower.Prelude.{
  ℕ, zero, suc, ◌+◌, ◌-◌, ◌≤◌, ◌<◌, String, ◌≡◌, refl, ap, sym, true, false, ◌||◌, List, [], ◌∷◌,
  ◌++◌, arith, ◌==◌, eq_iff, if◌then◌else◌, leb, length, drop, Bool-cases, inl, inr,
}
use native.Mathlib.Decide.{dec_le}
use sonic_watchtower.Peer.Seen.{has_seen, without, mark_within}

-- No id twice.
abbrev pub Distinct : List String → Type 0
Distinct [] = Unit
Distinct (x ∷ xs) = (has_seen x xs ≡ false) × Distinct xs

-- A set that forgets nothing: the id moves to the end.
abbrev pub note : String → List String → List String
note fid h = without fid h ++ fid ∷ []

-- The last entries of a history, at most `n`.
abbrev pub last_entries : ℕ → List String → List String
last_entries n h = drop (length h - n) h

pub length-append : (xs ys : List String) → length (xs ++ ys) ≡ length xs + length ys
length-append [] ys = omega arith
length-append (x ∷ xs) ys = omega (arith, length-append xs ys)

pub has_seen-without :
    (k j : String) (xs : List String)
    → has_seen j (without k xs) ≡ (if k == j then false else has_seen j xs)
unfolding has_seen without
has_seen-without k j [] = ground arith
has_seen-without k j (x ∷ xs) =
    ground (arith, eq_iff x k, eq_iff x j, eq_iff k j, has_seen-without k j xs)

pub has_seen-append :
    (j : String) (xs ys : List String) → has_seen j (xs ++ ys) ≡ (has_seen j xs || has_seen j ys)
unfolding has_seen
has_seen-append j [] ys = refl
has_seen-append j (x ∷ xs) ys = ground (arith, has_seen-append j xs ys)

without_absent : (k : String) (xs : List String) → has_seen k xs ≡ false → without k xs ≡ xs
unfolding has_seen without
without_absent k [] h = refl
without_absent k (x ∷ xs) h = ground (arith, without_absent k xs)

length-without :
    (k : String) (xs : List String)
    → Distinct xs
    → has_seen k xs ≡ true
    → suc (length (without k xs)) ≡ length xs
unfolding has_seen without
length-without k [] u h = cc
length-without k (x ∷ xs) u h =
    ground (arith, eq_iff x k, length-without k xs u.1, without_absent k xs)

pub without-Distinct : (k : String) (xs : List String) → Distinct xs → Distinct (without k xs)
unfolding without
without-Distinct k [] u = tt
without-Distinct k (x ∷ xs) u = elim (Bool-cases (x == k)) [
  | inl same ↦ rw same (without-Distinct k xs u.1)
  | inr other ↦ rw other (ground (arith, has_seen-without k x xs, u.0), without-Distinct k xs u.1)
]

pub append-Distinct :
    (k : String) (xs : List String) → Distinct xs → has_seen k xs ≡ false → Distinct (xs ++ k ∷ [])
unfolding has_seen
append-Distinct k [] u h = (refl, tt)
append-Distinct k (x ∷ xs) u h = (
  ground (arith, has_seen-append x xs (k ∷ []), eq_iff k x, eq_iff x k, u.0),
  append-Distinct k xs u.1 (ground arith),
)

pub note-Distinct : (k : String) (h : List String) → Distinct h → Distinct (note k h)
note-Distinct k h u =
    append-Distinct k (without k h) (without-Distinct k h u)
      (ground (arith, has_seen-without k k h, eq_iff k k))

drop-append : (n : ℕ) (xs ys : List String) → n ≤ length xs → drop n (xs ++ ys) ≡ drop n xs ++ ys
drop-append zero xs ys h = refl
drop-append (suc n) [] ys h = absurd (omega arith)
drop-append (suc n) (x ∷ xs) ys h = drop-append n xs ys (omega arith)

drop-drop : (n : ℕ) (xs : List String) → drop 1 (drop n xs) ≡ drop (suc n) xs
drop-drop zero xs = refl
drop-drop (suc n) [] = refl
drop-drop (suc n) (x ∷ xs) = drop-drop n xs

pub length-drop : (n : ℕ) (xs : List String) → length (drop n xs) ≡ length xs - n
length-drop zero xs = omega arith
length-drop (suc n) [] = omega arith
length-drop (suc n) (x ∷ xs) = omega (arith, length-drop n xs)

has_seen-drop :
    (n : ℕ) (k : String) (xs : List String) → has_seen k (drop n xs) ≡ true → has_seen k xs ≡ true
unfolding has_seen
has_seen-drop zero k xs h = h
has_seen-drop (suc n) k [] h = h
has_seen-drop (suc n) k (x ∷ xs) h = ground (arith, has_seen-drop n k xs h)

-- An id among the last entries is not among the first.
drop-without_late :
    (n : ℕ) (k : String) (xs : List String)
    → Distinct xs
    → has_seen k (drop n xs) ≡ true
    → drop n (without k xs) ≡ without k (drop n xs)
unfolding has_seen without
drop-without_late zero k xs u h = refl
drop-without_late (suc n) k [] u h = refl
drop-without_late (suc n) k (x ∷ xs) u h =
    ground (arith, eq_iff x k, u.0, has_seen-drop n k xs h, drop-without_late n k xs u.1 h)

-- An id among the first entries leaves the later ones one place earlier.
drop-without_early :
    (n : ℕ) (k : String) (xs : List String)
    → Distinct xs
    → has_seen k xs ≡ true
    → has_seen k (drop n xs) ≡ false
    → drop n (without k xs) ≡ drop (suc n) xs
unfolding has_seen without
drop-without_early zero k xs u p h = cc
drop-without_early (suc n) k [] u p h = cc
drop-without_early (suc n) k (x ∷ xs) u p h = elim (Bool-cases (x == k)) [
  | inl same ↦ rw same (ap (drop (suc n)) (without_absent k xs (ground (arith, eq_iff x k, u.0))))
  | inr other ↦ rw other (drop-without_early n k xs u.1 (ground arith) h)
]

-- `n` entries of the history are forgotten.
module _ (cap n : ℕ) (fid : String) (h : List String) (u : Distinct h) (room : 0 < cap)
    (e : n ≡ length h - cap) where
  -- The id is among the entries kept.
  mark_kept :
      has_seen fid (drop n h) ≡ true
      → without fid (drop n h) ++ fid ∷ [] ≡ last_entries cap (note fid h)
  mark_kept seen =
      let size = length-without fid h u (has_seen-drop n fid h seen) in
      let same : length (note fid h) - cap ≡ n =
        omega (arith, size, length-append (without fid h) (fid ∷ [])) in
      rw same (
        rw (drop-append n (without fid h) (fid ∷ []) (omega arith))
          (rw (drop-without_late n fid h u seen) refl))

  -- The id was forgotten.
  mark_forgotten :
      has_seen fid h ≡ true
      → has_seen fid (drop n h) ≡ false
      → drop (suc n) h ++ fid ∷ [] ≡ last_entries cap (note fid h)
  mark_forgotten seen out =
      let size = length-without fid h u seen in
      let same : length (note fid h) - cap ≡ n =
        omega (arith, size, length-append (without fid h) (fid ∷ [])) in
      rw same (
        rw (drop-append n (without fid h) (fid ∷ []) (omega arith))
          (rw (drop-without_early n fid h u seen out) refl))

  -- The id is new, and the set is full.
  mark_new_full :
      has_seen fid h ≡ false
      → cap ≤ length h
      → drop (suc n) h ++ fid ∷ [] ≡ last_entries cap (note fid h)
  mark_new_full new full = rw (without_absent fid h new) (
      let same : length (h ++ fid ∷ []) - cap ≡ suc n = omega (arith, length-append h (fid ∷ [])) in
      rw same (sym (drop-append (suc n) h (fid ∷ []) (omega arith))))

  -- The id is new, and there is room.
  mark_new : has_seen fid h ≡ false → length h < cap → h ++ fid ∷ [] ≡ last_entries cap (note fid h)
  mark_new new free = rw (without_absent fid h new) (
      let same : length (h ++ fid ∷ []) - cap ≡ 0 = omega (arith, length-append h (fid ∷ [])) in
      rw same refl)

-- Marking an id among the last `cap` entries of a history gives the last `cap` of the history with
-- the id at its end.
pub mark_within-last_entries :
    (cap : ℕ) (fid : String) (h : List String)
    → 0 < cap
    → Distinct h
    → mark_within cap fid (last_entries cap h) ≡ last_entries cap (note fid h)
unfolding mark_within
mark_within-last_entries cap fid h room u =
    let n : ℕ = length h - cap in
    elim (Bool-cases (has_seen fid (drop n h))) [
      | inl kept ↦ rw kept (mark_kept cap n fid h u room refl kept)
      | inr out ↦ rw out (elim (dec_le cap (length h)) [
        | yes full ↦
            let is_full : leb cap (length (drop n h)) ≡ true = ground (arith, length-drop n h) in
            rw is_full (
              rw (drop-drop n h) (elim (Bool-cases (has_seen fid h)) [
                | inl old ↦ mark_forgotten cap n fid h u room refl old out
                | inr new ↦ mark_new_full cap n fid h u room refl new full
              ]))
        | no free ↦
            let none_dropped : n ≡ 0 = omega arith in
            let not_full : leb cap (length (drop n h)) ≡ false = ground (arith, length-drop n h) in
            rw not_full (
              rw none_dropped
                (mark_new cap 0 fid h u room (omega arith) (rw none_dropped at out) (omega arith)))
      ])
    ]
