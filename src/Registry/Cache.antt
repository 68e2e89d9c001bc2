-- ===== src/Registry/Cache.antt =====
-- The cache of resolved keys of internal/registry/registry.go, and what other goroutines do between
-- the steps of a lookup. The database is a function from hashes to answers, and a change of it
-- waits until `Forget` is called for it. Times are nanoseconds. The counters `gen` and `drops` are
-- not bumped 2^64 times.
pub mod Served
use keera_gateway.Base.{
  ℕ, ◌+◌, String, Bool, true, false, not, ◌&&◌, ◌||◌, Option, none, some, List, [], ◌∷◌, ◌++◌, ◌==◌,
  string_eq, nat_eq, ltb, ◌≡◌, ◌⊎◌, if◌then◌else◌, any,
}
use keera_gateway.Base.Dict.{Dict, get, put}
use keera_gateway.Base.Int.{ℤ, pos, pos_part, leb_ℤ}
use keera_gateway.Policy.Resolve.{Key, Resolved}
use keera_gateway.Registry.Changes.{Change, key_id_of, org_of}

pub record Ttls : Type 0 where
  pub ttl : ℤ
  pub negative_ttl : ℤ
  pub spend_refresh : ℤ

-- `Options.setDefaults`
unfoldable pub set_defaults : Ttls → Ttls
set_defaults o = record {
  ttl = if leb_ℤ o.ttl (pos 0) then pos 30_000_000_000 else o.ttl;
  negative_ttl = if leb_ℤ o.negative_ttl (pos 0) then pos 5_000_000_000 else o.negative_ttl;
  spend_refresh = if leb_ℤ o.spend_refresh (pos 0) then pos 10_000_000_000 else o.spend_refresh;
}

-- The errors of a lookup: those of a key that is refused, and any other.
pub data LookupError : Type 0 where
  unknown_key key_revoked key_expired key_pending other_error : LookupError

unfoldable pub is_key_rejection : LookupError → Bool
is_key_rejection other_error = false
is_key_rejection _ = true

-- What a lookup answers.
pub data Answer : Type 0 where
  resolved : Resolved → Answer
  failed : LookupError → Answer

-- `entry`
pub record Entry : Type 0 where
  pub answer : Answer
  pub expires : ℕ
  pub gen : ℕ

pub record Cache : Type 0 where
  pub keys : Dict Entry
  pub gen : ℕ
  pub drops : ℕ

-- Whether `dropKeys` deletes an entry
drops_entry : (Key → Bool) → Answer → Bool
drops_entry match (resolved r) = match r.key
drops_entry match (failed e) = false

drop_matching : (Key → Bool) → Dict Entry → Dict Entry
drop_matching match [] = []
drop_matching match ((k, e) ∷ keys) =
    let rest = drop_matching match keys in
    if drops_entry match e.answer then rest else (k, e) ∷ rest

-- `dropKeys`
unfoldable pub drop_keys : (Key → Bool) → Cache → Cache
unfolding drop_matching drops_entry
drop_keys match r = record r { keys = drop_matching match r.keys; drops = r.drops + 1 }

forget_for : Option String → Option String → Cache → Cache
forget_for (some id) org r = drop_keys (λ k. k.id == id) r
forget_for none (some id) r = drop_keys (λ k. k.org_id == id) r
forget_for none none r = record r { gen = r.gen + 1 }

-- `Forget`
unfoldable pub forget : Change → Cache → Cache
unfolding forget_for drop_keys key_id_of org_of
forget c r = forget_for (key_id_of c) (org_of c) r

live : Option Entry → ℕ → ℕ → Option Entry
live none gen now = none
live (some e) gen now = if e.gen == gen && ltb now e.expires then some e else none

-- `lookupCache`: a live entry, and the count of drops
unfoldable pub lookup_cache : Cache → String → ℕ → ℕ → Option Entry × ℕ
unfolding live
lookup_cache r ck gen now = (live (get r.keys ck) gen now, r.drops)

kept_for : Ttls → Answer → Option ℕ
kept_for o (resolved r) = some (pos_part o.ttl)
kept_for o (failed e) = if is_key_rejection e then some (pos_part o.negative_ttl) else none

remember_for : Option ℕ → Cache → String → ℕ → ℕ → Answer → ℕ → Cache
remember_for none r ck gen drops a now = r
remember_for (some ttl) r ck gen drops a now =
    if r.drops == drops
    then record r { keys = put r.keys ck (record { answer = a; expires = now + ttl; gen = gen }) }
    else r

-- `remember`
unfoldable pub remember : Ttls → Cache → String → ℕ → ℕ → Answer → ℕ → Cache
unfolding kept_for remember_for is_key_rejection
remember o r ck gen drops a now = remember_for (kept_for o a) r ck gen drops a now

swept : ℕ → ℕ → Dict Entry → Dict Entry
swept gen now [] = []
swept gen now ((k, e) ∷ keys) =
    let rest = swept gen now keys in
    if not (e.gen == gen) || ltb e.expires now then rest else (k, e) ∷ rest

-- `Sweep`
unfoldable pub sweep : Cache → ℕ → Cache
unfolding swept
sweep r now = record r { keys = swept r.gen now r.keys }

-- A `Resolve` and its `lookup` on their way: the generation that it read first, the drops that it
-- saw when the cache had no answer, and what the database answered.
pub record Query : Type 0 where
  pub hash : String
  pub gen : ℕ
  pub drops : Option ℕ
  pub answer : Option Answer

pub record System : Type 0 where
  pub cache : Cache
  pub db : String → Answer
  pub unforgotten : List Change
  pub queries : List Query

-- The keys that a change may be about: those whose entries `Forget` makes stale.
about_for : Option String → Option String → Key → Bool
about_for (some id) org k = k.id == id
about_for none (some id) k = k.org_id == id
about_for none none k = true

unfoldable pub about : Change → Key → Bool
unfolding about_for key_id_of org_of
about c = about_for (key_id_of c) (org_of c)

-- A change of the database: what it resolves otherwise than before, or no longer, is about the key.
abbrev pub IsChange : Change → (String → Answer) → (String → Answer) → Type 0
IsChange c db db' =
    (ck : String) (r : Resolved)
    → db ck ≡ resolved r
    → (db' ck ≡ resolved r) ⊎ (about c r.key ≡ true)

pub data Step (o : Ttls) : System → System → Type 0 where
  changes :
      {s : System} (c : Change) (db' : String → Answer)
      → IsChange c s.db db'
      → Step o s (record s { db = db'; unforgotten = c ∷ s.unforgotten })
  forgets :
      {s : System} (xs ys : List Change) (c : Change)
      → s.unforgotten ≡ xs ++ (c ∷ ys)
      → Step o s (record s { cache = forget c s.cache; unforgotten = xs ++ ys })
  forgets_again : {s : System} (c : Change) → Step o s (record s { cache = forget c s.cache })
  starts :
      {s : System} (ck : String)
      → Step o s (record s {
        queries = record { hash = ck; gen = s.cache.gen; drops = none; answer = none } ∷ s.queries;
      })
  misses :
      {s : System} (xs ys : List Query) (q : Query) (now : ℕ)
      → s.queries ≡ xs ++ (q ∷ ys)
      → q.drops ≡ none
      → (lookup_cache s.cache q.hash q.gen now).0 ≡ none
      → Step o s (record s {
        queries =
            xs
            ++ (record q { drops = some (lookup_cache s.cache q.hash q.gen now).1; answer = none }
                ∷ ys);
      })
  reads :
      {s : System} (xs ys : List Query) (q : Query) (seen : ℕ)
      → s.queries ≡ xs ++ (q ∷ ys)
      → q.drops ≡ some seen
      → Step o s (record s { queries = xs ++ (record q { answer = some (s.db q.hash) } ∷ ys) })
  remembers :
      {s : System} (xs ys : List Query) (q : Query) (seen now : ℕ) (a : Answer)
      → s.queries ≡ xs ++ (q ∷ ys)
      → q.drops ≡ some seen
      → q.answer ≡ some a
      → Step o s
          (record s { cache = remember o s.cache q.hash q.gen seen a now; queries = xs ++ ys })
  gives_up :
      {s : System} (xs ys : List Query) (q : Query)
      → s.queries ≡ xs ++ (q ∷ ys)
      → Step o s (record s { queries = xs ++ ys })
  sweeps : {s : System} (now : ℕ) → Step o s (record s { cache = sweep s.cache now })

-- What a new registry over a database comes to.
pub data Reaches (o : Ttls) : System → Type 0 where
  empty :
      (db : String → Answer)
      → Reaches o (record {
        cache = record { keys = []; gen = 0; drops = 0 };
        db = db;
        unforgotten = [];
        queries = [];
      })
  then_step : {s s' : System} → Reaches o s → Step o s s' → Reaches o s'
