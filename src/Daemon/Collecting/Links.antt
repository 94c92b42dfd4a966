-- ===== src/Daemon/Collecting/Links.antt =====
-- From the databases to the last states of the links (collectors/interface_state.py, main.py).
use sonic_watchtower.Prelude.{
  String, ◌<>◌, ◌≡◌, refl, ap, sym, ◌∙◌, ◌||◌, none, some, Option-cases, Bool-cases, inl, inr, [],
  ◌∷◌, ◌==◌,
}
use sonic_watchtower.Prelude.Clock.{Moment}
use sonic_watchtower.Prelude.Dict.{Dict, NodupKeys, has_key, lookup, get_or}
use sonic_watchtower.Prelude.Exec.{Result, ok, raise}
use sonic_watchtower.Prelude.Float.{Float}
use sonic_watchtower.Prelude.Fallible.{bind-ok, ◌>>=◌}
use sonic_watchtower.Prelude.Text.{after_first}
use sonic_watchtower.Collectors.{
  RedisReader, Readers, reader, appl_db, state_db, keys_for, unless_empty,
}
use sonic_watchtower.Daemon.Collecting.{collect_all, outcome, map_values}
use sonic_watchtower.Collectors.InterfaceState
use sonic_watchtower.Collectors.Gathering.{gather_lem, gather-IsRead}
use sonic_watchtower.Analyzers.Diff.{Info}
use sonic_watchtower.Daemon.{Daemon, safe_collect}
use sonic_watchtower.Daemon.Changes.{check_link_changes}
use sonic_watchtower.Daemon.Changes.Settled.{check_link_changes-settles}
use sonic_watchtower.Daemon.Changes.Tracked.{seen_state}

-- The status that the collector reads.
abbrev pub status_of : Dict String → Dict String → String
status_of fields more = elim (lookup "oper_status" fields) [
  | some s ↦ s
  | none ↦ elim (lookup "netdev_oper_status" more) [ some s ↦ s | none ↦ "unknown" ]
]

oper_status_lem :
    (fields more : Dict String)
    → (InterfaceState.interface_of fields more).oper_status ≡ status_of fields more
unfolding InterfaceState.interface_of
oper_status_lem fields more = elim (Option-cases (lookup "oper_status" fields)) [
  | inr (s, there) ↦ rw (there, status_of, InterfaceState.interface_of, get_or) refl
  | inl absent ↦ elim (Option-cases (lookup "netdev_oper_status" more)) [
    | inr (s, there) ↦ rw (absent, there, status_of, InterfaceState.interface_of, get_or) refl
    | inl gone ↦ rw (absent, gone, status_of, InterfaceState.interface_of, get_or) refl
  ]
]

module _ (appl state : RedisReader) where
  -- What the databases say of a port: `oper_status` of a hash of the port in the first, or
  -- `netdev_oper_status` of its hash in the second, or "unknown".
  abbrev pub IsStatus : String → String → Type 0
  IsStatus port status =
      (key : String) × (fields : Dict String) × (more : Dict String) × (after_first ":" key ≡ port)
      × (appl.hgetall key ≡ ok fields)
      × (state.hgetall ("PORT_TABLE|" <> port) ≡ ok more)
      × (status ≡ status_of fields more)

  interface_of-IsStatus :
      (key port : String) (fields : Dict String) (i : InterfaceState.Interface)
      → after_first ":" key ≡ port
      → appl.hgetall key ≡ ok fields
      → unless_empty fields (
          state.hgetall ("PORT_TABLE|" <> after_first ":" key) >>= λ more.
          ok (InterfaceState.interface_of fields more))
        ≡ ok (some i)
      → IsStatus port i.oper_status
  unfolding InterfaceState.interface_of
  interface_of-IsStatus key port [] i named got e = absurd (cc e)
  interface_of-IsStatus key port (field ∷ fields) i named got e =
      let (a, entry, e1) = bind-ok _ (λ a. ok (some a)) (some i) e in
      let (more, got_more, e2) =
        bind-ok (state.hgetall ("PORT_TABLE|" <> after_first ":" key)) _ a entry in
      let same : InterfaceState.interface_of (field ∷ fields) more ≡ i = cc (e1, e2) in
      (
        key,
        field ∷ fields,
        more,
        named,
        got,
        ap (λ n. state.hgetall ("PORT_TABLE|" <> n)) (sym named) ∙ got_more,
        ap (λ (i : InterfaceState.Interface). i.oper_status) (sym same)
            ∙ oper_status_lem (field ∷ fields) more,
      )

  read_interface-IsStatus :
      (key port : String) (i : InterfaceState.Interface)
      → after_first ":" key ≡ port
      → InterfaceState.read_interface appl state key ≡ ok (some i)
      → IsStatus port i.oper_status
  unfolding InterfaceState.read_interface
  read_interface-IsStatus key port i named e =
      let (fields, got, e1) = bind-ok (appl.hgetall key) _ (some i) e in
      interface_of-IsStatus key port fields i named got e1

has_key-map_values :
    {A B : Type 0} (f : A → B) (n : String) (d : Dict A) → has_key n (map_values f d) ≡ has_key n d
unfolding has_key map_values
has_key-map_values f n [] = refl
has_key-map_values f n ((k, a) ∷ d) = ap (λ b. k == n || b) (has_key-map_values f n d)

map_values-NodupKeys :
    {A B : Type 0} (f : A → B) (d : Dict A) → NodupKeys d → NodupKeys (map_values f d)
unfolding map_values
map_values-NodupKeys f [] u = tt
map_values-NodupKeys f ((k, a) ∷ d) u =
    (has_key-map_values f k d ∙ u.0, map_values-NodupKeys f d u.1)

outcome-NodupKeys :
    {A B : Type 0} (f : A → B) (r : Result (Dict A))
    → ((d : Dict A) → r ≡ ok d → NodupKeys d)
    → NodupKeys (safe_collect (outcome f r))
outcome-NodupKeys f (ok d) h = map_values-NodupKeys f d (h d refl)
outcome-NodupKeys f (raise e) h = tt

ifaces-NodupKeys :
    (readers : Readers)
    → NodupKeys (safe_collect (outcome (λ i. i.oper_status) (InterfaceState.collect readers none)))
unfolding InterfaceState.collect
ifaces-NodupKeys readers = outcome-NodupKeys _ (InterfaceState.collect readers none) λ d e.
    let (appl, _, e1) = bind-ok (reader appl_db readers) _ d e in
    let (state, _, e2) = bind-ok (reader state_db readers) _ d e1 in
    let (keys, _, e3) = bind-ok (keys_for appl "PORT_TABLE:" none) _ d e2 in
    (gather_lem (after_first ":") (InterfaceState.read_interface appl state) "" keys [] d tt e3).0

lookup-map_values :
    {A B : Type 0} (f : A → B) (n : String) (d : Dict A) (a : A)
    → lookup n d ≡ some a
    → lookup n (map_values f d) ≡ some (f a)
unfolding lookup map_values
lookup-map_values f n [] a e = absurd (cc e)
lookup-map_values f n ((k, v) ∷ d) a e = elim (Bool-cases (k == n)) [
  | inl same ↦ rw same (ap (λ o. elim o [ none ↦ none | some x ↦ some (f x) ]) (rw same at e))
  | inr other ↦ rw other (lookup-map_values f n d a (rw other at e))
]

collected-IsStatus :
    (readers : Readers) (port : String) (ifaces : Dict InterfaceState.Interface)
    (i : InterfaceState.Interface)
    → InterfaceState.collect readers none ≡ ok ifaces
    → lookup port ifaces ≡ some i
    → (appl : RedisReader) × (state : RedisReader) × (reader appl_db readers ≡ ok appl)
      × (reader state_db readers ≡ ok state)
      × IsStatus appl state port i.oper_status
unfolding InterfaceState.collect
collected-IsStatus readers port ifaces i e there =
    let (appl, found, e1) = bind-ok (reader appl_db readers) _ ifaces e in
    let (state, found_too, e2) = bind-ok (reader state_db readers) _ ifaces e1 in
    let (keys, _, e3) = bind-ok (keys_for appl "PORT_TABLE:" none) _ ifaces e2 in
    let (key, named, got) =
      gather-IsRead (after_first ":") (InterfaceState.read_interface appl state) port keys ifaces i
        e3 there in
    (appl, state, found, found_too, read_interface-IsStatus appl state key port i named got)

module _ {F : Type 0} where
  -- Where the interfaces are collected without an exception, and the check of links over what was
  -- collected ends without one too, the last state of every interface collected is what the
  -- databases say of it: `oper_status` of a hash of the port in APPL_DB, or without such a field
  -- `netdev_oper_status` of its hash in STATE_DB, or "unknown".
  pub check_link_changes-collected :
      (fl : Float F) (readers : Readers) (now : Moment) (lldp : Dict Info) (port : String)
      (ifaces : Dict InterfaceState.Interface) (i : InterfaceState.Interface) (d : Daemon F)
      → InterfaceState.collect readers none ≡ ok ifaces
      → lookup port ifaces ≡ some i
      → (check_link_changes now (safe_collect (collect_all fl readers).iface_state) lldp d).0
        ≡ ok tt
      → (appl : RedisReader) × (state : RedisReader) × (status : String) × (reader appl_db readers
          ≡ ok appl)
        × (reader state_db readers ≡ ok state)
        × IsStatus appl state port status
        × (lookup port
              (check_link_changes now
                (safe_collect (collect_all fl readers).iface_state)
                lldp
                d).1.last_oper_states
            ≡ some status)
  unfolding collect_all
  check_link_changes-collected fl readers now lldp port ifaces i d e there h =
      let (appl, state, found, found_too, says) =
        collected-IsStatus readers port ifaces i e there in
      let settled =
        check_link_changes-settles now now _ lldp lldp port d (ifaces-NodupKeys readers) h in
      let oper =
        lookup-map_values (λ (i : InterfaceState.Interface). i.oper_status) port ifaces i there in
      (
        appl,
        state,
        i.oper_status,
        found,
        found_too,
        says,
        settled.0
            ∙ ap
                (λ r.
                  seen_state (λ o. o) port
                    (safe_collect (outcome (λ (i : InterfaceState.Interface). i.oper_status) r))
                    d.last_oper_states)
                e
            ∙ ap (λ o. elim o [ none ↦ lookup port d.last_oper_states | some v ↦ some v ]) oper,
      )
