-- ===== src/Store/Peers/Fragments.antt =====
-- How peer/state.py replaces the topology fragment of a peer.
use sonic_watchtower.Prelude.{
  ℕ, String, ◌≡◌, refl, ap, sym, ◌∙◌, Bool, false, not, ◌||◌, List, [], ◌∷◌, ◌++◌, map, arith, ◌==◌,
  eq_iff, any, select, All,
}
use mathlib.Core.List.{append_assoc, append-nil}
use sonic_watchtower.Prelude.Exec.{ok, for_each, for_each_step}
use sonic_watchtower.Store.{Store, PeerLink}
use sonic_watchtower.Store.Peers.{
  Link, link_of, same_link, insert_link, forget_links, update_peer_topology,
}

any-append_one :
    (p : PeerLink → Bool) (row : PeerLink) (rows : List PeerLink)
    → any p (rows ++ row ∷ []) ≡ (any p rows || p row)
unfolding any
any-append_one p row [] = ground arith
any-append_one p row (r ∷ rows) = ground (arith, any-append_one p row rows)

abbrev pub with_links : {F : Type 0} → List PeerLink → Store F → Store F
with_links rows s = record s { peer_topology = rows }

module _ (now : ℕ) (host : String) where
  abbrev row_of : Link → PeerLink
  row_of n = link_of now host n

  -- No link twice in the message.
  abbrev pub DistinctLinks : List Link → Type 0
  DistinctLinks [] = Unit
  DistinctLinks (n ∷ ns) = All (λ k. same_link (row_of k) (row_of n) ≡ false) ns × DistinctLinks ns

  -- None of the links is in the table.
  abbrev Fresh : List PeerLink → List Link → Type 0
  Fresh rows ns = All (λ n. any (same_link (row_of n)) rows ≡ false) ns

  Fresh-append :
      (rows : List PeerLink) (n : Link) (ns : List Link)
      → Fresh rows ns
      → All (λ k. same_link (row_of k) (row_of n) ≡ false) ns
      → Fresh (rows ++ row_of n ∷ []) ns
  Fresh-append rows n [] f d = tt
  Fresh-append rows n (k ∷ ns) (f, fs) (d, ds) = (
    any-append_one (same_link (row_of k)) (row_of n) rows ∙ rw (f, d) refl,
    Fresh-append rows n ns fs ds,
  )

  Fresh-forgotten :
      (rows : List PeerLink) (ns : List Link)
      → Fresh (select (λ l. not (l.peer_hostname == host)) rows) ns
  unfolding any select
  Fresh-forgotten rows [] = tt
  Fresh-forgotten rows (n ∷ ns) = (absent rows, Fresh-forgotten rows ns)
    where
      absent :
          (rows : List PeerLink)
          → any (same_link (row_of n)) (select (λ l. not (l.peer_hostname == host)) rows) ≡ false
      absent [] = refl
      absent (l ∷ rows) =
          ground (arith, absent rows, eq_iff l.peer_hostname host, eq_iff host l.peer_hostname)

  module _ {F : Type 0} where
    insert_links :
        (ns : List Link) (s : Store F)
        → Fresh s.peer_topology ns
        → DistinctLinks ns
        → for_each ns (insert_link now host) s
          ≡ (ok tt, with_links (s.peer_topology ++ map row_of ns) s)
    unfolding for_each insert_link
    insert_links [] s f d =
        ap (λ rows. (ok tt, with_links rows s)) (sym (append-nil s.peer_topology))
    insert_links (n ∷ ns) s (f, fs) (d, ds) =
        for_each_step n ns (insert_link now host) s
          (with_links (s.peer_topology ++ row_of n ∷ []) s) (rw f refl)
        ∙ insert_links ns (with_links (s.peer_topology ++ row_of n ∷ []) s)
            (Fresh-append s.peer_topology n ns fs d) ds
        ∙ ap (λ rows. (ok tt, with_links rows s))
            (append_assoc s.peer_topology (row_of n ∷ []) (map row_of ns))

    -- A fragment that holds no link twice is stored without an exception, whatever the table holds:
    -- afterwards the links of the peer are exactly those of the fragment, and the links of the
    -- other peers are the ones from before.
    pub update_peer_topology-replaces :
        (ns : List Link) (s : Store F)
        → DistinctLinks ns
        → update_peer_topology now host ns s ≡ (
          ok tt,
          with_links
              (select (λ l. not (l.peer_hostname == host)) s.peer_topology ++ map row_of ns)
              s,
        )
    unfolding update_peer_topology
    update_peer_topology-replaces ns s d =
        insert_links ns (forget_links host s) (Fresh-forgotten s.peer_topology ns) d
