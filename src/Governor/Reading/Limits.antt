-- ===== src/Governor/Reading/Limits.antt =====
-- governor.py: what `_read_resources` never sets, and the settings that have no effect for it.
use sonic_watchtower.Prelude.{
  ℕ, ◌+◌, String, ◌≡◌, refl, ap, sym, ◌∙◌, false, Option, none, some, List, [], ◌∷◌, arith, leb,
  length, drop, Bool-cases, Option-cases, inl, inr,
}
use text.Mathlib.Text.{starts_with}
use sonic_watchtower.Prelude.Dict.{Dict}
use sonic_watchtower.Prelude.Exec.{
  Exec, Result, ok, raise, Error, os_error, value_error, index_error, zero_division_error,
  operational_error, integrity_error, runtime_error, rpc_error, ◌>>=◌, pure, continue_keeps,
}
use sonic_watchtower.Prelude.Float.{Float}
use sonic_watchtower.Prelude.Text.{words, int_of}
use sonic_watchtower.Config.{ResourceConfig}
use sonic_watchtower.Governor.{ResourceSnapshot, compute_state}
use sonic_watchtower.Governor.Reading.{
  ProcFile, absent, unreadable, lines, Proc, demand, with_file, item, put_memory, put_cpu,
  store_number, parse_meminfo, sum_ints, set_memory, read_status, read_meminfo, set_cpu, read_stat,
  read_all, forgiven, read_resources, blank,
}

-- An operation leaves a part of the state alone, whether it raises or not.
abbrev Leaves : {S A C : Type 0} → (S → C) → Exec S A → Type 0
Leaves g m = (s : _) → g (m s).1 ≡ g s

module _ {S A B C : Type 0} (g : S → C) where
  bind-Leaves :
      (m : Exec S A) (f : A → Exec S B)
      → Leaves g m
      → ((a : A) → Leaves g (f a))
      → Leaves g (m >>= f)
  bind-Leaves m f hm hf s = continue_keeps g (m s).0 f (m s).1 (λ a. hf a (m s).1) ∙ hm s

module _ {S A C : Type 0} (g : S → C) where
  demand-Leaves : (e : Error) (o : Option A) → Leaves g (demand {S = S} e o)
  demand-Leaves e none s = refl
  demand-Leaves e (some a) s = refl

module _ {S C : Type 0} (g : S → C) where
  with_file-Leaves :
      (f : ProcFile) (body : List String → Exec S (Unit {0}))
      → ((ls : List String) → Leaves g (body ls))
      → Leaves g (with_file f body)
  with_file-Leaves absent body h s = refl
  with_file-Leaves unreadable body h s = refl
  with_file-Leaves (lines ls) body h s = h ls s

  sum_ints-Leaves : (ps : List String) → Leaves g (sum_ints {S = S} ps)
  unfolding sum_ints
  sum_ints-Leaves [] s = refl
  sum_ints-Leaves (p ∷ ps) s = elim (Option-cases (int_of p)) [
    | inl bad ↦ rw bad refl
    | inr (n, e) ↦ rw e (
        bind-Leaves g (sum_ints ps) (λ rest. pure (n + rest)) (sum_ints-Leaves ps) (λ rest s'. refl)
          s)
  ]

  store_number-Leaves :
      (parts : List String) (info : Dict ℕ) → Leaves g (store_number {S = S} parts info)
  unfolding store_number
  store_number-Leaves [] info s = refl
  store_number-Leaves (key ∷ []) info s = refl
  store_number-Leaves (key ∷ n ∷ _) info s = elim (Option-cases (int_of n)) [
    | inl bad ↦ rw bad refl
    | inr (number, e) ↦ rw e refl
  ]

  parse_meminfo-Leaves :
      (ls : List String) (info : Dict ℕ) → Leaves g (parse_meminfo {S = S} ls info)
  unfolding parse_meminfo
  parse_meminfo-Leaves [] info = λ s. refl
  parse_meminfo-Leaves (line ∷ ls) info =
      bind-Leaves g (store_number (words line) info) (parse_meminfo ls)
        (store_number-Leaves (words line) info) (λ info'. parse_meminfo-Leaves ls info')

module _ {F : Type 0} (fl : Float F) where
  open fl use {flt, of_ℕ}

  abbrev cpu : ResourceSnapshot F → F
  cpu snap = snap.watchtower_cpu_percent

  set_memory-Leaves : (line : String) → Leaves cpu (set_memory fl line)
  unfolding set_memory
  set_memory-Leaves line s = elim (Option-cases (item 1 (words line))) [
    | inl short ↦ rw short refl
    | inr (word, e) ↦
        rw e
          (elim (Option-cases (int_of word)) [ inl bad ↦ rw bad refl | inr (kb, e') ↦ rw e' refl ])
  ]

  read_status-Leaves : (ls : List String) → Leaves cpu (read_status fl ls)
  unfolding read_status
  read_status-Leaves [] s = refl
  read_status-Leaves (line ∷ ls) s = elim (Bool-cases (starts_with line "VmRSS:")) [
    | inl found ↦ rw found (set_memory-Leaves line s)
    | inr other ↦ rw other (read_status-Leaves ls s)
  ]

  put_memory-Leaves : (info : Dict ℕ) → Leaves cpu (put_memory fl info)
  put_memory-Leaves info s = ground arith

  read_meminfo-Leaves : (ls : List String) → Leaves cpu (read_meminfo fl ls)
  unfolding read_meminfo
  read_meminfo-Leaves ls =
      bind-Leaves cpu (parse_meminfo ls []) (put_memory fl) (parse_meminfo-Leaves cpu ls [])
        put_memory-Leaves

  put_cpu-Leaves : (idle total : ℕ) → Leaves cpu (put_cpu fl idle total)
  put_cpu-Leaves idle total s = ground arith

  set_cpu-Leaves : (parts : List String) → Leaves cpu (set_cpu fl parts)
  unfolding set_cpu
  set_cpu-Leaves parts s = elim (Option-cases (item 4 parts)) [
    | inl short ↦ rw short refl
    | inr (word, e) ↦ rw e (elim (Option-cases (int_of word)) [
      | inl bad ↦ rw bad refl
      | inr (idle, e') ↦ rw e' (
          bind-Leaves cpu (sum_ints (drop 1 parts)) (put_cpu fl idle)
            (sum_ints-Leaves cpu (drop 1 parts)) (put_cpu-Leaves idle) s)
    ])
  ]

  read_stat-Leaves : (ls : List String) → Leaves cpu (read_stat fl ls)
  unfolding read_stat
  read_stat-Leaves ls s =
      let parts = words (elim ls [ [] ↦ "" | line ∷ _ ↦ line ]) in
      elim (Bool-cases (leb 5 (length parts))) [
        | inl enough ↦ rw enough (set_cpu-Leaves parts s)
        | inr few ↦ rw few refl
      ]

  read_all-Leaves : (proc : Proc) → Leaves cpu (read_all fl proc)
  unfolding read_all
  read_all-Leaves proc =
      bind-Leaves cpu (with_file proc.status (read_status fl))
        (λ _. with_file proc.meminfo (read_meminfo fl) >>= λ _. with_file proc.stat (read_stat fl))
        (with_file-Leaves cpu proc.status (read_status fl) read_status-Leaves)
        λ _.
          bind-Leaves cpu (with_file proc.meminfo (read_meminfo fl))
            (λ _. with_file proc.stat (read_stat fl))
            (with_file-Leaves cpu proc.meminfo (read_meminfo fl) read_meminfo-Leaves)
            λ _. with_file-Leaves cpu proc.stat (read_stat fl) read_stat-Leaves

  forgiven-ok :
      (r : Result (Unit {0})) (snap after : ResourceSnapshot F)
      → forgiven fl r snap ≡ ok after
      → snap ≡ after
  forgiven-ok (ok u) snap after e = cc e
  forgiven-ok (raise os_error) snap after e = cc e
  forgiven-ok (raise value_error) snap after e = cc e
  forgiven-ok (raise index_error) snap after e = cc e
  forgiven-ok (raise zero_division_error) snap after e = absurd (cc e)
  forgiven-ok (raise integrity_error) snap after e = absurd (cc e)
  forgiven-ok (raise operational_error) snap after e = absurd (cc e)
  forgiven-ok (raise runtime_error) snap after e = absurd (cc e)
  forgiven-ok (raise rpc_error) snap after e = absurd (cc e)

  -- Whatever the files of /proc hold, the CPU that the daemon itself uses is read as 0, and two
  -- configurations that differ in their bounds of it alone, neither of them negative, give the
  -- same state.
  pub read_resources-cpu :
      (proc : Proc) (snap : ResourceSnapshot F) (c : ResourceConfig F) (max throttle : F)
      → read_resources fl proc ≡ ok snap
      → flt c.max_cpu_percent (of_ℕ 0) ≡ false
      → flt c.throttle_cpu_percent (of_ℕ 0) ≡ false
      → flt max (of_ℕ 0) ≡ false
      → flt throttle (of_ℕ 0) ≡ false
      → (snap.watchtower_cpu_percent ≡ of_ℕ 0)
        × (compute_state fl c snap
            ≡ compute_state fl
                (record c { max_cpu_percent = max; throttle_cpu_percent = throttle })
                snap)
  unfolding read_resources compute_state
  read_resources-cpu proc snap c max throttle e h1 h2 h3 h4 =
      let (r, after) = read_all fl proc (blank fl) in
      let unset : snap.watchtower_cpu_percent ≡ of_ℕ 0 =
        ap cpu (sym (forgiven-ok r after snap e)) ∙ read_all-Leaves proc (blank fl) in
      let below : (x : F) → flt x (of_ℕ 0) ≡ false → flt x snap.watchtower_cpu_percent ≡ false =
        λ x h. ap (flt x) unset ∙ h in
      (
        unset,
        rw
            (
              below c.max_cpu_percent h1,
              below c.throttle_cpu_percent h2,
              below max h3,
              below throttle h4,
            )
            refl,
      )
