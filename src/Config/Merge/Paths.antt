-- ===== src/Config/Merge/Paths.antt =====
-- `_merge_dataclass` of config.py: what stands at each path of names afterwards.
use sonic_watchtower.Prelude.{
  String, ◌≡◌, refl, ap, ◌∙◌, true, false, Option, none, some, List, [], ◌∷◌, arith, ◌==◌, eq_iff,
  sym, if◌then◌else◌, Bool-cases, Option-cases, inl, inr,
}
use sonic_watchtower.Config.Merge.{
  Object, Fields, end, field, null, flag, int, float, text, sequence, mapping, section, get, set,
  merge, assign,
}

unfoldable mutual
  unfolding get

  -- No key twice in any mapping of a value.
  pub AllDistinct : {F : Type 0} → Object F → Type 0
  AllDistinct (mapping fs) = DistinctIn fs
  AllDistinct value = Unit

  pub DistinctIn : {F : Type 0} → Fields F → Type 0
  DistinctIn end = Unit
  DistinctIn (field k v fs) = (get k fs ≡ none) × AllDistinct v × DistinctIn fs

module _ {F : Type 0} where
  -- A setting after an override of it, if there are both.
  abbrev pub merged : Option (Object F) → Option (Object F) → Option (Object F)
  merged none override = none
  merged (some current) none = some current
  merged (some current) (some value) = some (assign current value)

  abbrev pub names : Fields F → List String
  names end = []
  names (field k v fs) = k ∷ names fs

  -- No key twice, which a mapping of Python does not have.
  abbrev pub DistinctKeys : Fields F → Type 0
  DistinctKeys end = Unit
  DistinctKeys (field k v fs) = (get k fs ≡ none) × DistinctKeys fs

  names-set : (k : String) (v : Object F) (fs : Fields F) → names (set k v fs) ≡ names fs
  unfolding set
  names-set k v end = refl
  names-set k v (field j w fs) = elim (Bool-cases (j == k)) [
    | inl same ↦ rw same refl
    | inr other ↦ rw other (ap (λ ns. j ∷ ns) (names-set k v fs))
  ]

  get-set :
      (j k : String) (current v : Object F) (fs : Fields F)
      → get k fs ≡ some current
      → get j (set k v fs) ≡ (if k == j then some v else get j fs)
  unfolding get set
  get-set j k current v end h = absurd (cc h)
  get-set j k current v (field i w fs) h =
      ground (arith, eq_iff k j, eq_iff i k, eq_iff i j, get-set j k current v fs)

  -- One round of the loop of `_merge_dataclass`.
  abbrev step : Fields F → String → Object F → Fields F
  step dc key value = elim (get key dc) [
    | none ↦ dc
    | some current ↦ set key (assign current value) dc
  ]

  get-step_same :
      (j : String) (dc : Fields F) (key : String) (value : Object F)
      → (key == j) ≡ true
      → get j (step dc key value) ≡ merged (get j dc) (some value)
  get-step_same j dc key value same = elim (Option-cases (get key dc)) [
    | inl absent ↦
        let e : key ≡ j = (eq_iff key j).0 same in
        rw (absent, step) (let gone : get j dc ≡ none = rw e at absent in rw gone refl)
    | inr (current, there) ↦
        let e : key ≡ j = (eq_iff key j).0 same in
        let there_too : get j dc ≡ some current = rw e at there in
        rw (there, there_too, step)
          (rw same at (get-set j key current (assign current value) dc there))
  ]

  get-step_other :
      (j : String) (dc : Fields F) (key : String) (value : Object F)
      → (key == j) ≡ false
      → get j (step dc key value) ≡ get j dc
  get-step_other j dc key value e = elim (Option-cases (get key dc)) [
    | inl absent ↦ rw (absent, step) refl
    | inr (current, there) ↦
        rw (there, step) (rw e at (get-set j key current (assign current value) dc there))
  ]

  names-step :
      (dc : Fields F) (key : String) (value : Object F) → names (step dc key value) ≡ names dc
  names-step dc key value = elim (Option-cases (get key dc)) [
    | inl absent ↦ rw (absent, step) refl
    | inr (current, there) ↦ rw (there, step) (names-set key (assign current value) dc)
  ]

  merged-none : (current : Option (Object F)) → merged current none ≡ current
  merged-none none = refl
  merged-none (some c) = refl

  merge_field :
      (dc : Fields F) (key : String) (value : Object F) (overrides : Fields F)
      → merge dc (field key value overrides) ≡ merge (step dc key value) overrides
  unfolding merge assign
  merge_field dc key value overrides = refl

  merge_end : (dc : Fields F) → merge dc end ≡ dc
  unfolding merge
  merge_end dc = refl

  -- Merging neither adds nor drops a setting.
  pub names-merge : (dc overrides : Fields F) → names (merge dc overrides) ≡ names dc
  names-merge dc end = ap names (merge_end dc)
  names-merge dc (field key value overrides) =
      ap names (merge_field dc key value overrides)
      ∙ names-merge (step dc key value) overrides
      ∙ names-step dc key value

  -- Each setting is its override, or merged with it if it is a section and the override a mapping; it is as
  -- before without one. An override of what is no setting has no effect.
  pub get-merge :
      (j : String) (dc overrides : Fields F)
      → DistinctKeys overrides
      → get j (merge dc overrides) ≡ merged (get j dc) (get j overrides)
  unfolding get
  get-merge j dc end u = ap (get j) (merge_end dc) ∙ sym (merged-none (get j dc))
  get-merge j dc (field key value overrides) (fresh, u) =
      ap (get j) (merge_field dc key value overrides)
      ∙ get-merge j (step dc key value) overrides u
      ∙ later
    where
      later :
          merged (get j (step dc key value)) (get j overrides)
          ≡ merged (get j dc) (if key == j then some value else get j overrides)
      later = elim (Bool-cases (key == j)) [
        | inl same ↦
            let e : key ≡ j = (eq_iff key j).0 same in
            let gone : get j overrides ≡ none = rw e at fresh in
            rw (same, gone)
              (merged-none (get j (step dc key value)) ∙ get-step_same j dc key value same)
        | inr other ↦ rw (other, get-step_other j dc key value other) refl
      ]

  -- The value at a path of names, which is none where the path ends at a section or goes on below a
  -- value that is none.
  abbrev pub value_at : List String → Object F → Option (Object F)
  value_at [] (section fs) = none
  value_at [] v = some v
  value_at (k ∷ path) (section fs) = elim (get k fs) [ none ↦ none | some v ↦ value_at path v ]
  value_at (k ∷ path) v = none

  -- The value that belongs at a path of an instance and its overrides.
  abbrev pub given : Object F → Object F → List String → Option (Object F)
  given (section fs) (mapping overrides) [] = none
  given (section fs) (mapping overrides) (k ∷ path) = elim (get k fs) [
    | none ↦ none
    | some v ↦ elim (get k overrides) [ none ↦ value_at path v | some w ↦ given v w path ]
  ]
  given current value path = value_at path value

  pub distinct_keys : (fs : Fields F) → DistinctIn fs → DistinctKeys fs
  unfolding DistinctIn
  distinct_keys end u = tt
  distinct_keys (field k v fs) u = (u.0, distinct_keys fs u.2)

  distinct_at :
      (k : String) (v : Object F) (fs : Fields F)
      → DistinctIn fs
      → get k fs ≡ some v
      → AllDistinct v
  unfolding DistinctIn get
  distinct_at k v end u e = absurd (cc e)
  distinct_at k v (field j w fs) u e = elim (Bool-cases (j == k)) [
    | inl same ↦ let is_w : w ≡ v = cc (rw same at e) in rw (sym is_w) u.1
    | inr other ↦ distinct_at k v fs u.2 (rw other at e)
  ]

  assign_mapping :
      (fs overrides : Fields F)
      → assign (section fs) (mapping overrides) ≡ section (merge fs overrides)
  unfolding assign merge
  assign_mapping fs overrides = refl

  pub value_at-assign :
      (current value : Object F) (path : List String)
      → AllDistinct value
      → value_at path (assign current value) ≡ given current value path
  unfolding assign merge AllDistinct
  value_at-assign (section fs) (mapping overrides) [] u = refl
  value_at-assign (section fs) (mapping overrides) (k ∷ path) u =
      let merged_k = get-merge k fs overrides (distinct_keys overrides u) in
      rw merged_k (elim (Option-cases (get k fs)) [
        | inl absent ↦ rw (absent, given) refl
        | inr (c, there) ↦ elim (Option-cases (get k overrides)) [
          | inl gone ↦ rw (there, gone, given) refl
          | inr (w, over) ↦
              rw (there, over, given) (value_at-assign c w path (distinct_at k w overrides u over))
        ]
      ])
  value_at-assign (section fs) null path u = refl
  value_at-assign (section fs) (flag b) path u = refl
  value_at-assign (section fs) (int n) path u = refl
  value_at-assign (section fs) (float x) path u = refl
  value_at-assign (section fs) (text t) path u = refl
  value_at-assign (section fs) (sequence xs) path u = refl
  value_at-assign (section fs) (section os) path u = refl
  value_at-assign null value path u = refl
  value_at-assign (flag b) value path u = refl
  value_at-assign (int n) value path u = refl
  value_at-assign (float x) value path u = refl
  value_at-assign (text t) value path u = refl
  value_at-assign (sequence xs) value path u = refl
  value_at-assign (mapping fs) value path u = refl
