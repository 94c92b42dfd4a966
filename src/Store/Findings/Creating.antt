-- ===== src/Store/Findings/Creating.antt =====
-- What `FindingsStore.create` of store/findings.py does: the row, the other rows, the refusals.
use sonic_watchtower.Prelude.{
  ℕ, ◌+◌, String, ◌≡◌, refl, ap, sym, ◌∙◌, true, false, not, ◌&&◌, ◌||◌, Option, none, some, List,
  [], ◌∷◌, ◌++◌, arith, ◌==◌, eq_iff, eq_refl, if◌then◌else◌, any, Bool-cases, inl, inr,
}
use sonic_watchtower.Prelude.Clock.{Moment}
use sonic_watchtower.Prelude.Exec.{ok, raise, integrity_error}
use sonic_watchtower.Store.{Store, Finding, is_event_severity, restart}
use sonic_watchtower.Store.Findings.{
  generated_id, new_finding, has_id, insert_finding, create, find_id, get,
}

-- No finding id twice, which UNIQUE says.
abbrev pub UniqueIds : List Finding → Type 0
UniqueIds [] = Unit
UniqueIds (f ∷ fs) = (any (λ g. g.finding_id == f.finding_id) fs ≡ false) × UniqueIds fs

find_id-append_absent :
    (fid : String) (f : Finding) (fs : List Finding)
    → any (λ g. g.finding_id == fid) fs ≡ false
    → find_id fid (fs ++ f ∷ []) ≡ (if f.finding_id == fid then some f else none)
unfolding find_id any
find_id-append_absent fid f [] h = refl
find_id-append_absent fid f (g ∷ fs) h = ground (arith, find_id-append_absent fid f fs)

find_id-append_ne :
    (j : String) (f : Finding) (fs : List Finding)
    → (f.finding_id == j) ≡ false
    → find_id j (fs ++ f ∷ []) ≡ find_id j fs
unfolding find_id
find_id-append_ne j f [] h = rw h
find_id-append_ne j f (g ∷ fs) h = ground (arith, find_id-append_ne j f fs h)

pub any-append_one :
    (j : String) (f : Finding) (fs : List Finding)
    → any (λ g. g.finding_id == j) (fs ++ f ∷ [])
      ≡ (any (λ g. g.finding_id == j) fs || f.finding_id == j)
unfolding any
any-append_one j f [] = ground arith
any-append_one j f (g ∷ fs) = ground (arith, any-append_one j f fs)

append-UniqueIds :
    (f : Finding) (fs : List Finding)
    → UniqueIds fs
    → any (λ g. g.finding_id == f.finding_id) fs ≡ false
    → UniqueIds (fs ++ f ∷ [])
unfolding any
append-UniqueIds f [] u h = (refl, tt)
append-UniqueIds f (g ∷ fs) u h = (
  ground (
    arith,
    any-append_one g.finding_id f fs,
    eq_iff g.finding_id f.finding_id,
    eq_iff f.finding_id g.finding_id,
    u.0,
  ),
  append-UniqueIds f fs u.1 (ground arith),
)

pub generated_same_day :
    (now later : Moment) (seq : ℕ)
    → later.date ≡ now.date
    → generated_id later seq ≡ generated_id now seq
unfolding generated_id
generated_same_day now later seq e = rw e

module _ {F : Type 0} where
  -- What a successful INSERT leaves.
  pub record Inserted (f : Finding) (s s' : Store F) : Type 0 where
    pub known_severity : is_event_severity f.severity ≡ true
    pub fresh : has_id f.finding_id s ≡ false
    pub appended : s'.findings ≡ s.findings ++ f ∷ []

  insert_finding-Inserted :
      (f : Finding) (s : Store F) {fid : String} {s' : Store F}
      → insert_finding f s ≡ (ok fid, s')
      → Inserted f s s' × (fid ≡ f.finding_id)
  unfolding insert_finding
  insert_finding-Inserted f s h = elim (Bool-cases (is_event_severity f.severity)) [
    | inl valid ↦ elim (Bool-cases (has_id f.finding_id s)) [
      | inl old ↦ cc (rw (valid, old) at h)
      | inr new ↦
          let e = rw (valid, new) at h in
          (
            record {
              known_severity = valid;
              fresh = new;
              appended = ap (λ p. p.1.findings) (sym e);
            },
            cc e,
          )
    ]
    | inr refused ↦ cc (rw refused at h)
  ]

  get-Inserted :
      (f : Finding) {s s' : Store F} (i : Inserted f s s') (j : String)
      → get j s' ≡ (if f.finding_id == j then some f else get j s)
  unfolding get
  get-Inserted f {s} i j = rw i.appended (elim (Bool-cases (f.finding_id == j)) [
    | inl same ↦
        let e : f.finding_id ≡ j = (eq_iff f.finding_id j).0 same in
        rw same (find_id-append_absent j f s.findings (rw e at i.fresh) ∙ rw same)
    | inr other ↦ rw other (find_id-append_ne j f s.findings other)
  ])

  -- The finding's id is the caller's, or generated at the counter.
  abbrev pub chosen_id : Moment → Option String → Store F → String
  chosen_id now none s = generated_id now s.next_finding
  chosen_id now (some fid) s = fid

  create-Inserted :
      (now : Moment) (severity summary : String) (detail : Option String)
      (related : Option (List ℕ)) (oid : Option String) (s : Store F) {fid : String} {s' : Store F}
      → create now severity summary detail related oid s ≡ (ok fid, s')
      → Inserted
          (new_finding now.seconds severity summary detail related (chosen_id now oid s))
          s
          s'
        × (fid ≡ chosen_id now oid s)
  unfolding create
  create-Inserted now severity summary detail related (some fid) s h = insert_finding-Inserted _ s h
  create-Inserted now severity summary detail related none s h =
      let (i, e) = insert_finding-Inserted _ (record s { next_finding = s.next_finding + 1 }) h in
      (record { known_severity = i.known_severity; fresh = i.fresh; appended = i.appended }, e)

  -- A `create` that returns an id used an id that was free: afterwards `get` of that id returns the
  -- active finding with the data given, and `get` of every other id returns what it did before.
  pub get-create :
      (now : Moment) (severity summary : String) (detail : Option String)
      (related : Option (List ℕ)) (oid : Option String) (s : Store F) {fid : String} {s' : Store F}
      (j : String)
      → create now severity summary detail related oid s ≡ (ok fid, s')
      → (has_id fid s ≡ false)
        × (get j s' ≡ (
            if fid == j
            then some (new_finding now.seconds severity summary detail related fid)
            else get j s))
  get-create now severity summary detail related oid s j h =
      let (i, e) = create-Inserted now severity summary detail related oid s h in
      rw e (i.fresh, get-Inserted _ i j)

  insert_finding-UniqueIds :
      (f : Finding) (s : Store F) → UniqueIds s.findings → UniqueIds (insert_finding f s).1.findings
  unfolding insert_finding
  insert_finding-UniqueIds f s u =
      elim (Bool-cases (is_event_severity f.severity && not (has_id f.finding_id s))) [
        | inl free ↦ rw free (append-UniqueIds f s.findings u (ground arith))
        | inr refused ↦ rw refused u
      ]

  pub create-UniqueIds :
      (now : Moment) (severity summary : String) (detail : Option String)
      (related : Option (List ℕ)) (oid : Option String) (s : Store F)
      → UniqueIds s.findings
      → UniqueIds (create now severity summary detail related oid s).1.findings
  unfolding create
  create-UniqueIds now severity summary detail related (some fid) s u =
      insert_finding-UniqueIds (new_finding now.seconds severity summary detail related fid) s u
  create-UniqueIds now severity summary detail related none s u =
      insert_finding-UniqueIds
        (new_finding now.seconds severity summary detail related (generated_id now s.next_finding))
        (record s { next_finding = s.next_finding + 1 }) u

  create_taken :
      (now : Moment) (severity summary : String) (detail : Option String)
      (related : Option (List ℕ)) (s : Store F)
      → has_id (generated_id now s.next_finding) s ≡ true
      → create now severity summary detail related none s
        ≡ (raise integrity_error, record s { next_finding = s.next_finding + 1 })
  unfolding create insert_finding
  create_taken now severity summary detail related s taken =
      elim (Bool-cases (is_event_severity severity)) [
        | inl valid ↦ rw (valid, taken)
        | inr refused ↦ rw refused
      ]

  has_id-Inserted : (f : Finding) {s s' : Store F} → Inserted f s s' → has_id f.finding_id s' ≡ true
  has_id-Inserted f {s} i =
      rw i.appended (ground (arith, any-append_one f.finding_id f s.findings, eq_refl f.finding_id))

  -- After a new process has created its first finding under a generated id, another new process
  -- over the same database that creates its first finding on the same date is refused, whatever
  -- that finding is: the generated id is the same one.
  pub create-restart_collides :
      (now later : Moment) (severity severity' summary summary' : String)
      (detail detail' : Option String) (related related' : Option (List ℕ)) (s : Store F)
      {fid : String} {s' : Store F}
      → create now severity summary detail related none (restart s) ≡ (ok fid, s')
      → later.date ≡ now.date
      → create later severity' summary' detail' related' none (restart s')
        ≡ (raise integrity_error, record s' { next_finding = 2 })
  create-restart_collides now later severity severity' summary summary' detail detail' related
        related' s {s' = s'} h e =
      let (i, _) = create-Inserted now severity summary detail related none (restart s) h in
      create_taken later severity' summary' detail' related' (restart s')
        (rw (generated_same_day now later 1 e) (has_id-Inserted _ i))
