-- ===== src/Kernel/EvictTests.antt =====
-- runtime.py, eviction on a state with two stored queries and room for one.
use pyinc.Prelude.{◌≤◌, refl, some, [], ◌∷◌, String}
use pyinc.Kernel.Node.{same_key, contains}
use pyinc.Kernel.State.{Database, init, discard, evict_query_record}
use pyinc.Kernel.Requests.{
  last_used, least_recent, evict_one, evict_rounds, evict_query_nodes_if_needed,
}
use pyinc.Kernel.Recent.{evict-recent}
use pyinc.Kernel.Samples.{query}

-- `both` was used after `twice`.
abbrev crowded : Database String
crowded = record (init (some 1)) {
  query_records = query "both" ∷ query "twice" ∷ [];
  query_last_used = (query "twice", 3) ∷ (query "both", 4) ∷ [];
}

evict-recent_example : last_used crowded (query "twice") ≤ last_used crowded (query "both")
unfolding evict_query_nodes_if_needed evict_rounds evict_one least_recent last_used discard
    evict_query_record contains same_key pyinc.Assoc.find pyinc.Assoc.remove
evict-recent_example = evict-recent crowded (query "twice") (query "both") refl refl refl
