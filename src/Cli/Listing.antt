-- ===== src/Cli/Listing.antt =====
-- The list that `show findings` of cli/main.py echoes.
use sonic_watchtower.Store.{Store}
