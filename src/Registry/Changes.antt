-- ===== src/Registry/Changes.antt =====
-- What a policy notify carries: `Change` of internal/registry/registry.go, a text as in the source,
-- and the reloads that changes ask for.
use Prim.Native.String.{◌++◌ as join}
use keera_gateway.Base.{
  String, Bool, true, false, Option, none, some, List, [], ◌∷◌, ◌==◌, string_eq, ◌≡◌, ◌≢◌, ◌↔◌,
  if◌then◌else◌, arith, contains, text_eq_iff,
}
use keera_gateway.Base.Prefix.{cut_prefix, cut_prefix_iff}

abbrev pub Change : Type 0
Change = String

abbrev pub any_change : Change
any_change = ""

abbrev key_change_prefix : String
key_change_prefix = "key:"

abbrev org_change_prefix : String
org_change_prefix = "org:"

-- `OrgChange` and `KeyChange`
unfoldable pub org_change : String → Change
org_change id = join org_change_prefix id

unfoldable pub key_change : String → Change
key_change id = join key_change_prefix id

nonempty : Option String → Option String
nonempty none = none
nonempty (some id) = if id == "" then none else some id

-- The id behind a prefix, if there is one
id_after : String → Change → Option String
unfolding nonempty
id_after prefix c = nonempty (cut_prefix c prefix)

-- `Change.org` and `Change.key`
unfoldable pub org_of : Change → Option String
unfolding id_after
org_of c = id_after org_change_prefix c

unfoldable pub key_id_of : Change → Option String
unfolding id_after
key_id_of c = id_after key_change_prefix c

nonempty_iff :
    (o : Option String) (id : String) → (nonempty o ≡ some id) ↔ ((o ≡ some id) × (id ≢ ""))
unfolding nonempty
nonempty_iff none id = (λ h. cc h, λ h. cc (h.0))
nonempty_iff (some r) id = (
  λ h. (ground arith, ground (arith, text_eq_iff r "")),
  λ h. ground (arith, h.0, h.1, text_eq_iff r ""),
)

id_after_iff :
    (prefix c id : String) → (id_after prefix c ≡ some id) ↔ ((c ≡ join prefix id) × (id ≢ ""))
unfolding id_after
id_after_iff prefix c id =
    let after = nonempty_iff (cut_prefix c prefix) id in
    let cut = cut_prefix_iff c prefix id in
    (λ h. (cut.0 (after.0 h).0, (after.0 h).1), λ h. after.1 (cut.1 h.0, h.1))

-- A change names a key, or an organisation, exactly when it was made for one with a nonempty id,
-- and then the id is the one that it was made for.
pub change_iff :
    (c : Change) (id : String)
    → ((key_id_of c ≡ some id) ↔ ((c ≡ key_change id) × (id ≢ "")))
      × ((org_of c ≡ some id) ↔ ((c ≡ org_change id) × (id ≢ "")))
unfolding key_id_of org_of key_change org_change
change_iff c id = (id_after_iff key_change_prefix c id, id_after_iff org_change_prefix c id)

-- `pending`: what the next reload covers
pub record Pending : Type 0 where
  pub everything : Bool
  pub orgs : List String

abbrev nothing_pending : Pending
nothing_pending = record { everything = false; orgs = [] }

want_for : Option String → Option String → Pending → Pending
want_for (some key) org p = p
want_for none (some id) p =
    if p.everything then p else if contains p.orgs id then p else record p { orgs = id ∷ p.orgs }
want_for none none p = if p.everything then p else record { everything = true; orgs = [] }

-- `want`
unfoldable pub want : Pending → Change → Pending
unfolding want_for key_id_of org_of
want p c = want_for (key_id_of c) (org_of c) p
