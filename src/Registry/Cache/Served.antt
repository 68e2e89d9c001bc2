-- ===== src/Registry/Cache/Served.antt =====
-- What the cache of internal/registry/registry.go serves: never a resolution that a forgotten change
-- made stale, whatever lookups were on their way.
use keera_gateway.Base.{
  ℕ, ◌+◌, ◌≤◌, String, true, false, not, ◌&&◌, ◌||◌, Option, none, some, List, [], ◌∷◌, ◌++◌, ◌==◌,
  string_eq, nat_eq, ltb, ◌≡◌, refl, ◌⊎◌, inl, inr, any, any-append, All, All-append, All-split,
  Bool-cases, arith, ap, sym, ◌∙◌, text_eq_iff,
}
use keera_gateway.Base.Dict.{Dict, get, put, delete}
use keera_gateway.Policy.Resolve.{Resolved}
use keera_gateway.Registry.Changes.{Change, key_id_of, org_of}
use keera_gateway.Registry.Cache.{
  Ttls, Answer, resolved, failed, Entry, Cache, Query, System, IsChange, Step, Reaches, about,
  about_for, forget, forget_for, drop_keys, drop_matching, drops_entry, lookup_cache, live,
  remember, remember_for, kept_for, sweep, swept, changes, forgets, forgets_again, starts, misses,
  reads, remembers, gives_up, sweeps, empty, then_step,
}

-- An answer is not stale: a resolution is the database's, or a change about its key is waiting.
abbrev pub Fresh : (String → Answer) → List Change → String → Answer → Type 0
Fresh db cs ck (resolved r) = (db ck ≡ resolved r) ⊎ (any (λ c. about c r.key) cs ≡ true)
Fresh db cs ck (failed e) = Unit

abbrev EntryOk : ℕ → (String → Answer) → List Change → String × Entry → Type 0
EntryOk gen db cs (ck, e) = (e.gen ≤ gen) × (e.gen ≡ gen → Fresh db cs ck e.answer)

-- An answer that a query would put in the cache.
abbrev AnswerOk : ℕ → ℕ → (String → Answer) → List Change → String → ℕ → ℕ → Option Answer → Type 0
AnswerOk gen drops db cs ck g d none = Unit
AnswerOk gen drops db cs ck g d (some a) = g ≡ gen → d ≡ drops → Fresh db cs ck a

abbrev SeenOk :
    ℕ → ℕ → (String → Answer) → List Change → String → ℕ → Option Answer → Option ℕ → Type 0
SeenOk gen drops db cs ck g a none = Unit
SeenOk gen drops db cs ck g a (some d) = (d ≤ drops) × AnswerOk gen drops db cs ck g d a

abbrev QueryOk : ℕ → ℕ → (String → Answer) → List Change → Query → Type 0
QueryOk gen drops db cs q = (q.gen ≤ gen) × SeenOk gen drops db cs q.hash q.gen q.answer q.drops

pub record IsSound (s : System) : Type 0 where
  pub entries : All (EntryOk s.cache.gen s.db s.unforgotten) s.cache.keys
  pub waiting : All (QueryOk s.cache.gen s.cache.drops s.db s.unforgotten) s.queries

-- What holds of every element for a reason holds for a weaker one.
All-map {ℓ κ μ} :
    {A : Type ℓ} {P : A → Type κ} {Q : A → Type μ} (f : (x : A) → P x → Q x) (xs : List A)
    → All P xs
    → All Q xs
All-map f [] h = tt
All-map f (x ∷ xs) (h, hs) = (f x h, All-map f xs hs)

-- The database changes.
Fresh-changes :
    (c : Change) (db db' : String → Answer) (cs : List Change) (ck : String) (a : Answer)
    → IsChange c db db'
    → Fresh db cs ck a
    → Fresh db' (c ∷ cs) ck a
Fresh-changes c db db' cs ck (failed e) i h = tt
Fresh-changes c db db' cs ck (resolved r) i (inr waiting) = inr (ground arith)
Fresh-changes c db db' cs ck (resolved r) i (inl same) = elim (i ck r same) [
  | inl same' ↦ inl same'
  | inr changed ↦ inr (ground arith)
]

module _ (gen drops : ℕ) (db db' : String → Answer) (cs cs' : List Change) where
  -- All that is in the cache or on its way stays fresh, if each answer does.
  SeenOk-map :
      (f : (ck : String) (a : Answer) → Fresh db cs ck a → Fresh db' cs' ck a) (ck : String) (g : ℕ)
      (a : Option Answer) (d : Option ℕ)
      → SeenOk gen drops db cs ck g a d
      → SeenOk gen drops db' cs' ck g a d
  SeenOk-map f ck g a none h = tt
  SeenOk-map f ck g none (some d) h = h
  SeenOk-map f ck g (some a) (some d) (le, h) = (le, λ p q. f ck a (h p q))

-- `Forget` of a change about some keys drops their entries; any other starts a generation.
forget-eq :
    (c : Change) (r : Cache)
    → (forget c r ≡ drop_keys (about c) r) ⊎ (forget c r ≡ record r { gen = r.gen + 1 })
unfolding forget about
forget-eq c r = go (key_id_of c) (org_of c)
  where
    go :
        (k o : Option String)
        → (forget_for k o r ≡ drop_keys (about_for k o) r)
          ⊎ (forget_for k o r ≡ record r { gen = r.gen + 1 })
    go (some id) o = inl refl
    go none (some id) = inl refl
    go none none = inr refl

-- A change is forgotten that is not about this key.
Fresh-removed :
    (db : String → Answer) (xs ys : List Change) (c : Change) (ck : String) (r : Resolved)
    → about c r.key ≡ false
    → Fresh db (xs ++ (c ∷ ys)) ck (resolved r)
    → Fresh db (xs ++ ys) ck (resolved r)
Fresh-removed db xs ys c ck r away (inl same) = inl same
Fresh-removed db xs ys c ck r away (inr waiting) = inr (
    ground (
      arith,
      any-append (λ c'. about c' r.key) xs (c ∷ ys),
      any-append (λ c'. about c' r.key) xs ys,
    ))

module _ (gen drops : ℕ) (db : String → Answer) (cs cs' : List Change) (c : Change)
    (f : (ck : String) (r : Resolved)
      → about c r.key ≡ false
      → Fresh db cs ck (resolved r)
      → Fresh db cs' ck (resolved r)) where
  Fresh-kept :
      (ck : String) (a : Answer)
      → drops_entry (about c) a ≡ false
      → Fresh db cs ck a
      → Fresh db cs' ck a
  unfolding drops_entry
  Fresh-kept ck (resolved r) away h = f ck r away h
  Fresh-kept ck (failed e) away h = tt

  drop_matching-Ok :
      (keys : Dict Entry)
      → All (EntryOk gen db cs) keys
      → All (EntryOk gen db cs') (drop_matching (about c) keys)
  unfolding drop_matching
  drop_matching-Ok [] h = tt
  drop_matching-Ok ((ck, e) ∷ keys) ((le, h), hs) =
      elim (Bool-cases (drops_entry (about c) e.answer)) [
        | inl dropped ↦ rw dropped (drop_matching-Ok keys hs)
        | inr kept ↦
            rw kept ((le, λ p. Fresh-kept ck e.answer kept (h p)), drop_matching-Ok keys hs)
      ]

  -- No answer on its way from before a drop is kept.
  QueryOk-dropped : (q : Query) → QueryOk gen drops db cs q → QueryOk gen (drops + 1) db cs' q
  QueryOk-dropped q (le, h) = (le, go q.answer q.drops h)
    where
      go :
          (a : Option Answer) (d : Option ℕ)
          → SeenOk gen drops db cs q.hash q.gen a d
          → SeenOk gen (drops + 1) db cs' q.hash q.gen a d
      go a none h' = tt
      go none (some d) (le', _) = (omega arith, tt)
      go (some a) (some d) (le', _) = (omega arith, λ p e. absurd (omega arith))

  -- Nor one of an older generation.
  EntryOk-older : (e : String × Entry) → EntryOk gen db cs e → EntryOk (gen + 1) db cs' e
  EntryOk-older (ck, e) (le, _) = (omega arith, λ p. absurd (omega arith))

  QueryOk-older : (q : Query) → QueryOk gen drops db cs q → QueryOk (gen + 1) drops db cs' q
  QueryOk-older q (le, h) = (omega arith, go q.answer q.drops h)
    where
      go :
          (a : Option Answer) (d : Option ℕ)
          → SeenOk gen drops db cs q.hash q.gen a d
          → SeenOk (gen + 1) drops db cs' q.hash q.gen a d
      go a none h' = tt
      go none (some d) (le', _) = (le', tt)
      go (some a) (some d) (le', _) = (le', λ p e. absurd (omega arith))

  forget-Ok :
      (keys : Dict Entry) (queries : List Query)
      → All (EntryOk gen db cs) keys
      → All (QueryOk gen drops db cs) queries
      → IsSound (record {
        cache = forget c (record { keys = keys; gen = gen; drops = drops });
        db = db;
        unforgotten = cs';
        queries = queries;
      })
  unfolding drop_keys
  forget-Ok keys queries h k =
      elim (forget-eq c (record { keys = keys; gen = gen; drops = drops })) [
        | inl dropped ↦ rw dropped (record {
          entries = drop_matching-Ok keys h;
          waiting = All-map QueryOk-dropped queries k;
        })
        | inr renewed ↦ rw renewed (record {
          entries = All-map EntryOk-older keys h;
          waiting = All-map QueryOk-older queries k;
        })
      ]

-- Entries that are deleted.
delete-All :
    (P : String × Entry → Type 0) (keys : Dict Entry) (k : String)
    → All P keys
    → All P (delete keys k)
unfolding delete
delete-All P [] k h = tt
delete-All P ((j, e) ∷ keys) k (h, hs) = elim (Bool-cases (j == k)) [
  | inl here ↦ rw here (delete-All P keys k hs)
  | inr away ↦ rw away (h, delete-All P keys k hs)
]

swept-All :
    (P : String × Entry → Type 0) (keys : Dict Entry) (gen now : ℕ)
    → All P keys
    → All P (swept gen now keys)
unfolding swept
swept-All P [] gen now h = tt
swept-All P ((k, e) ∷ keys) gen now (h, hs) =
    elim (Bool-cases (not (e.gen == gen) || ltb e.expires now)) [
      | inl gone ↦ rw gone (swept-All P keys gen now hs)
      | inr kept ↦ rw kept (h, swept-All P keys gen now hs)
    ]

get-All :
    (P : String × Entry → Type 0) (keys : Dict Entry) (k : String) (e : Entry)
    → All P keys
    → get keys k ≡ some e
    → P (k, e)
unfolding get
get-All P [] k e h found = cc found
get-All P ((j, d) ∷ keys) k e (h, hs) found = elim (Bool-cases (j == k)) [
  | inl here ↦
      let same : j ≡ k = (text_eq_iff j k).0 here in
      let same' : d ≡ e = cc (rw here at found) in rw (← same, ← same') h
  | inr away ↦ get-All P keys k e hs (rw away at found)
]

remember-keys :
    (o : Ttls) (r : Cache) (ck : String) (g d now : ℕ) (a : Answer) (P : String × Entry → Type 0)
    → All P r.keys
    → ((e : Entry) → e.answer ≡ a → e.gen ≡ g → r.drops ≡ d → P (ck, e))
    → (All P (remember o r ck g d a now).keys)
      × ((remember o r ck g d a now).gen ≡ r.gen)
      × ((remember o r ck g d a now).drops ≡ r.drops)
unfolding remember put
remember-keys o r ck g d now a P h f = go (kept_for o a)
  where
    go :
        (t : Option ℕ)
        → (All P (remember_for t r ck g d a now).keys)
          × ((remember_for t r ck g d a now).gen ≡ r.gen)
          × ((remember_for t r ck g d a now).drops ≡ r.drops)
    go none = (h, refl, refl)
    go (some ttl) = elim (Bool-cases (r.drops == d)) [
      | inr other ↦ rw other (h, refl, refl)
      | inl same ↦ rw same (
        (
          f (record { answer = a; expires = now + ttl; gen = g }) refl refl (ground arith),
          delete-All P r.keys ck h,
        ),
        refl,
        refl,
      )
    ]

-- One query of the list, taken out of it or replaced.
module _ (P : Query → Type 0) {queries : List Query} (xs ys : List Query) (q : Query)
    (at : queries ≡ xs ++ (q ∷ ys)) where
  All-one : All P queries → P q
  All-one h = (All-split P xs (q ∷ ys) (rw at at h)).1.0

  All-rest : All P queries → All P (xs ++ ys)
  All-rest h = let (l, r) = All-split P xs (q ∷ ys) (rw at at h) in All-append P xs ys l r.1

  All-set : (q' : Query) → All P queries → P q' → All P (xs ++ (q' ∷ ys))
  All-set q' h p =
      let (l, r) = All-split P xs (q ∷ ys) (rw at at h) in All-append P xs (q' ∷ ys) l (p, r.1)

-- What the database answers now is fresh.
Fresh-now : (db : String → Answer) (cs : List Change) (ck : String) → Fresh db cs ck (db ck)
Fresh-now db cs ck = go (db ck) refl
  where
    go : (a : Answer) → db ck ≡ a → Fresh db cs ck a
    go (resolved r) e = inl e
    go (failed _) e = tt

Step-IsSound : (o : Ttls) (s s' : System) → IsSound s → Step o s s' → IsSound s'
unfolding lookup_cache sweep
Step-IsSound o s _ h (changes c db' i) =
    let f = λ (ck : String) (a : Answer). Fresh-changes c s.db db' s.unforgotten ck a i in
    record {
      entries =
          All-map (λ (e : String × Entry) k. (k.0, λ p. f e.0 e.1.answer (k.1 p))) s.cache.keys
            h.entries;
      waiting =
          All-map
            (λ (q : Query) k. (
              k.0,
              SeenOk-map s.cache.gen s.cache.drops s.db db' s.unforgotten (c ∷ s.unforgotten) f
                  q.hash q.gen q.answer q.drops k.1,
            ))
            s.queries h.waiting;
    }
Step-IsSound o s _ h (forgets xs ys c at) =
    forget-Ok s.cache.gen s.cache.drops s.db s.unforgotten (xs ++ ys) c
      (λ ck r away k. Fresh-removed s.db xs ys c ck r away (rw at at k)) s.cache.keys s.queries
      h.entries h.waiting
Step-IsSound o s _ h (forgets_again c) =
    forget-Ok s.cache.gen s.cache.drops s.db s.unforgotten s.unforgotten c (λ ck r away k. k)
      s.cache.keys s.queries h.entries h.waiting
Step-IsSound o s _ h (starts ck) = record {
  entries = h.entries;
  waiting = ((omega arith, tt), h.waiting);
}
Step-IsSound o s _ h (misses xs ys q now at unseen missed) =
    let (old, _) =
      All-one (QueryOk s.cache.gen s.cache.drops s.db s.unforgotten) xs ys q at h.waiting in
    record {
      entries = h.entries;
      waiting =
          All-set (QueryOk s.cache.gen s.cache.drops s.db s.unforgotten) xs ys q at _ h.waiting
            (old, (omega arith, tt));
    }
Step-IsSound o s _ h (reads xs ys q seen at before) =
    let (old, seen_before) =
      All-one (QueryOk s.cache.gen s.cache.drops s.db s.unforgotten) xs ys q at h.waiting in
    let (le, _) = rw before at seen_before in
    record {
      entries = h.entries;
      waiting =
          All-set (QueryOk s.cache.gen s.cache.drops s.db s.unforgotten) xs ys q at _ h.waiting
            (old, rw before (le, λ p e. Fresh-now s.db s.unforgotten q.hash));
    }
Step-IsSound o s _ h (remembers xs ys q seen now a at before answered) =
    let (old, was_seen) =
      All-one (QueryOk s.cache.gen s.cache.drops s.db s.unforgotten) xs ys q at h.waiting in
    let (_, fresh) = rw (before, answered) at was_seen in
    let (keys, gen, drops) =
      remember-keys o s.cache q.hash q.gen seen now a (EntryOk s.cache.gen s.db s.unforgotten)
        h.entries (λ e p g d. (rw g old, λ g'. rw p (fresh (sym g ∙ g') (sym d)))) in
    record {
      entries = rw gen keys;
      waiting =
          rw (gen, drops)
            (All-rest (QueryOk s.cache.gen s.cache.drops s.db s.unforgotten) xs ys q at h.waiting);
    }
Step-IsSound o s _ h (gives_up xs ys q at) = record {
  entries = h.entries;
  waiting = All-rest (QueryOk s.cache.gen s.cache.drops s.db s.unforgotten) xs ys q at h.waiting;
}
Step-IsSound o s _ h (sweeps now) = record {
  entries =
      swept-All (EntryOk s.cache.gen s.db s.unforgotten) s.cache.keys s.cache.gen now h.entries;
  waiting = h.waiting;
}

Reaches-IsSound : (o : Ttls) (s : System) → Reaches o s → IsSound s
Reaches-IsSound o _ (empty db) = record { entries = tt; waiting = tt }
Reaches-IsSound o s' (then_step {s = s} r st) = Step-IsSound o s s' (Reaches-IsSound o s r) st

live-some :
    (o : Option Entry) (gen now : ℕ) (e : Entry)
    → live o gen now ≡ some e
    → (o ≡ some e) × (e.gen ≡ gen)
unfolding live
live-some none gen now e h = cc h
live-some (some d) gen now e h = elim (Bool-cases (d.gen == gen && ltb now d.expires)) [
  | inl lives ↦ let same : d ≡ e = cc (rw lives at h) in (ap some same, rw (← same) (ground arith))
  | inr dead ↦ cc (rw dead at h)
]

-- Whatever lookups and changes happened before: a resolution that the cache serves to a request
-- of the current generation is what the database answers, unless a change that may be about that
-- key has not been forgotten yet. The database resolves a key otherwise only by a change that
-- is about it, and no answer changes by itself.
pub lookup_cache-Fresh :
    (o : Ttls) (s : System) (ck : String) (now : ℕ) (e : Entry) (r : Resolved)
    → Reaches o s
    → (lookup_cache s.cache ck s.cache.gen now).0 ≡ some e
    → e.answer ≡ resolved r
    → (s.db ck ≡ resolved r) ⊎ (any (λ c. about c r.key) s.unforgotten ≡ true)
unfolding lookup_cache
lookup_cache-Fresh o s ck now e r reached hit answered =
    let (held, this) = live-some (get s.cache.keys ck) s.cache.gen now e hit in
    let (_, fresh) =
      get-All (EntryOk s.cache.gen s.db s.unforgotten) s.cache.keys ck e
        (Reaches-IsSound o s reached).entries held in
    rw answered at (fresh this)
