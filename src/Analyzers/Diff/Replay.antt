-- ===== src/Analyzers/Diff/Replay.antt =====
-- What the changes of analyzers/topology_diff.py say of the two snapshots.
use sonic_watchtower.Prelude.{
  String, ◌≡◌, refl, ap, sym, ◌∙◌, Bool, true, false, not, ◌&&◌, none, some, List, [], ◌∷◌, ◌++◌,
  arith, ◌==◌, eq_iff, eq_refl, if◌then◌else◌, Bool-cases, Option-cases, inl, inr,
}
use sonic_watchtower.Prelude.Dict.{
  Dict, lookup, insert, erase, has_key, NodupKeys, lookup-insert, lookup-erase, has_key-lookup,
  lookup-has_key,
}
use sonic_watchtower.Analyzers.Diff.{
  Info, TopologyChange, differs, compare_port, new_and_changed, gone, changes,
}

-- The neighbours after a change, as a reader of the reports would note them.
abbrev pub apply : TopologyChange → Dict Info → Dict Info
apply c d =
    if c.change_type == "neighbor_removed"
    then erase c.local_port d
    else insert c.local_port
        (record { neighbor_hostname = c.neighbor_hostname; neighbor_port = c.neighbor_port }) d

abbrev pub replay : List TopologyChange → Dict Info → Dict Info
replay [] d = d
replay (c ∷ cs) d = replay cs (apply c d)

abbrev pub at : String → TopologyChange → Bool
at port c = c.local_port == port

replay-append :
    (xs ys : List TopologyChange) (d : Dict Info) → replay (xs ++ ys) d ≡ replay ys (replay xs d)
replay-append [] ys d = refl
replay-append (x ∷ xs) ys d = replay-append xs ys (apply x d)

-- Equal parts make an equal neighbour.
differs_not : (a b : Info) → differs a b ≡ false → a ≡ b
differs_not a b h =
    let host : a.neighbor_hostname ≡ b.neighbor_hostname =
      ground (arith, eq_iff a.neighbor_hostname b.neighbor_hostname, h) in
    let port : a.neighbor_port ≡ b.neighbor_port =
      ground (arith, eq_iff a.neighbor_port b.neighbor_port, h) in
    λ i. record { neighbor_hostname = host i; neighbor_port = port i }

-- One round brings the port's entry up to date, and no other.
lookup-compare_port :
    (old d : Dict Info) (port : String) (new : Info) (j : String)
    → lookup port d ≡ lookup port old
    → lookup j (replay (compare_port old port new) d) ≡ (if port == j then some new else lookup j d)
lookup-compare_port old d port new j same = elim (Option-cases (lookup port old)) [
  | inl absent ↦ rw (absent, compare_port) (lookup-insert port j new d)
  | inr (o, found) ↦
      rw (found, compare_port)
        (elim (Bool-cases (differs o new)) [
          | inl moved ↦ rw moved (lookup-insert port j new d)
          | inr equal ↦ rw equal (elim (Bool-cases (port == j)) [
            | inl here ↦ rw here (
                ap (λ k. lookup k d) (sym ((eq_iff port j).0 here))
                ∙ same
                ∙ found
                ∙ ap some (differs_not o new equal))
            | inr there ↦ rw there refl
          ])
        ])
]

lookup-new_and_changed :
    (old d current : Dict Info) (j : String)
    → NodupKeys current
    → ((k : String) → has_key k current ≡ true → lookup k d ≡ lookup k old)
    → lookup j (replay (new_and_changed old current) d)
      ≡ elim (lookup j current) [ none ↦ lookup j d | some new ↦ some new ]
unfolding new_and_changed lookup has_key
lookup-new_and_changed old d [] j u h = refl
lookup-new_and_changed old d ((port, new) ∷ current) j (fresh, u) h =
    let d' : Dict Info = replay (compare_port old port new) d in
    let first : (k : String) → lookup k d' ≡ (if port == k then some new else lookup k d) =
      λ k. lookup-compare_port old d port new k (h port (ground (arith, eq_refl port))) in
    let others : (k : String) → has_key k current ≡ true → lookup k d' ≡ lookup k old =
      λ k p. first k ∙ ground (arith, fresh, p, eq_iff port k, h k) in
    ap (lookup j) (replay-append (compare_port old port new) (new_and_changed old current) d)
    ∙ lookup-new_and_changed old d' current j u others
    ∙ ground (arith, first j, lookup-has_key j current, fresh, eq_iff port j)

lookup-gone :
    (current old d : Dict Info) (j : String)
    → lookup j (replay (gone current old) d)
      ≡ (if has_key j old && not (has_key j current) then none else lookup j d)
unfolding gone has_key
lookup-gone current [] d j = refl
lookup-gone current ((port, o) ∷ old) d j = elim (Bool-cases (has_key port current)) [
  | inl stays ↦ rw stays (lookup-gone current old d j ∙ ground (arith, stays, eq_iff port j))
  | inr goes ↦ rw goes (
      lookup-gone current old (erase port d) j
      ∙ ground (arith, goes, eq_iff port j, lookup-erase port j d))
]

-- Whoever applies the reported changes, in their order, to the neighbours of the old snapshot has
-- the neighbours of the new one: the report is complete, and nothing in it is wrong.
pub lookup-replay :
    (old current : Dict Info) (j : String)
    → NodupKeys current
    → lookup j (replay (changes old current) old) ≡ lookup j current
unfolding changes
lookup-replay old current j u =
    ap (lookup j) (replay-append (new_and_changed old current) (gone current old) old)
    ∙ lookup-gone current old (replay (new_and_changed old current) old) j
    ∙ ground (
      arith,
      lookup-new_and_changed old old current j u (λ k p. refl),
      has_key-lookup j current,
      lookup-has_key j old,
      lookup-has_key j current,
    )
