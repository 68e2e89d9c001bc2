-- ===== src/Tests/Caches.antt =====
-- What the registry keeps of the database.
use keera_gateway.Base.{
  String, true, none, some, List, [], ◌∷◌, ◌≡◌, ◌≢◌, ◌↔◌, ◌⊎◌, refl, any, if◌then◌else◌, ◌==◌,
  string_eq,
}
use keera_gateway.Base.Dict.{get, put}
use keera_gateway.Base.Int.{pos}
use keera_gateway.Policy.Resolve.{Resolved}
use keera_gateway.Registry.Changes.{key_id_of, org_of, key_change, org_change, change_iff}
use keera_gateway.Registry.Index.{
  find, replace_all, replace_org, last_at, placed, placed_own, find-replace,
}
use keera_gateway.Registry.Cache.{
  Ttls, Answer, resolved, failed, unknown_key, Cache, System, Reaches, about, lookup_cache,
  remember, empty, then_step, starts, misses, reads, remembers,
}
use keera_gateway.Registry.Cache.Served.{lookup_cache-Fresh}

abbrev a_key : String
a_key = "k1"

abbrev revoked : String
revoked = "key:k1"

change_iff_example :
    ((key_id_of revoked ≡ some a_key) ↔ ((revoked ≡ key_change a_key) × (a_key ≢ "")))
    × ((org_of revoked ≡ some a_key) ↔ ((revoked ≡ org_change a_key) × (a_key ≢ "")))
change_iff_example = change_iff revoked a_key

-- Things that are their organisation and alias.
abbrev by_name : String × String → (String × String) × String × String
by_name (o, a) = ((o, a), o, a)

abbrev by_alias : String × String → (String × String) × String
by_alias (o, a) = ((o, a), a)

abbrev two_things : List (String × String)
two_things = ("acme", "small") ∷ ("other", "large") ∷ []

find-replace_example :
    (find (replace_all two_things by_name) "acme" "small"
      ≡ last_at (placed by_name "acme" "small") two_things)
    × (find (replace_org [] "acme" two_things by_alias) "acme" "small"
        ≡ last_at (placed_own by_alias "small") two_things)
find-replace_example = find-replace by_name by_alias two_things two_things [] "acme" "acme" "small"

abbrev ttls : Ttls
ttls = record { ttl = pos 30; negative_ttl = pos 5; spend_refresh = pos 10 }

abbrev k1 : Resolved
k1 = record {
  key = record { id = "k1"; org_id = "acme"; project_id = ""; user_id = ""; kind = "standard" };
  allowed_models = none;
  allowed_locations = none;
  system_prompt = "";
  filters = [];
  allowed_tools = none;
  scopes = [];
  quotas = [];
}

abbrev one_key : String → Answer
one_key ck = if ck == "hash" then resolved k1 else failed unknown_key

abbrev unused : Cache
unused = record { keys = []; gen = 0; drops = 0 }

abbrev cached : System
cached = record {
  cache = remember ttls unused "hash" 0 0 (resolved k1) 7;
  db = one_key;
  unforgotten = [];
  queries = [];
}

one_lookup : Reaches ttls cached
unfolding lookup_cache get
one_lookup =
    then_step
      (then_step
        (then_step (then_step (empty one_key) (starts "hash")) (misses [] [] _ 3 refl refl refl))
        (reads [] [] _ 0 refl refl))
      (remembers [] [] _ 0 7 (resolved k1) refl refl refl)

lookup_cache-Fresh_example : (one_key "hash" ≡ resolved k1) ⊎ (any (λ c. about c k1.key) [] ≡ true)
unfolding lookup_cache remember get put
lookup_cache-Fresh_example =
    lookup_cache-Fresh ttls cached "hash" 8 (record { answer = resolved k1; expires = 37; gen = 0 })
      k1 one_lookup refl refl
