-- ===== src/Peer/Seen.antt =====
-- The bounded set of finding ids of peer/__init__.py, an `OrderedDict` used as an LRU set: the list
-- of its keys, the oldest first.
pub mod Refines
pub mod Bounds
pub mod Recent
use sonic_watchtower.Prelude.{
  ℕ, String, Bool, false, ◌||◌, List, [], ◌∷◌, ◌++◌, ◌==◌, leb, if◌then◌else◌, length, drop,
}

-- `_MAX_SEEN_FINDINGS`
abbrev pub max_seen_findings : ℕ
max_seen_findings = 1000

-- `_has_seen`
unfoldable pub has_seen : String → List String → Bool
has_seen fid [] = false
has_seen fid (x ∷ xs) = x == fid || has_seen fid xs

-- A key taken out, as the first half of `move_to_end` does.
unfoldable pub without : String → List String → List String
without fid [] = []
without fid (x ∷ xs) = let rest = without fid xs in if x == fid then rest else x ∷ rest

-- `_mark_seen`, for any capacity.
unfoldable pub mark_within : ℕ → String → List String → List String
unfolding has_seen without
mark_within capacity fid seen =
    if has_seen fid seen
    then without fid seen ++ fid ∷ []
    else (if leb capacity (length seen) then drop 1 seen else seen) ++ fid ∷ []

-- `_mark_seen`
unfoldable pub mark_seen : String → List String → List String
unfolding mark_within
mark_seen fid seen = mark_within max_seen_findings fid seen
