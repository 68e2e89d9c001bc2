-- ===== src/Policy/Resolve/Filters.antt =====
-- The filters of a resolved key, and the windows that its cost is charged to.
use keera_gateway.Base.{
  String, true, false, List, [], ◌∷◌, ◌++◌, ◌&&◌, ◌||◌, ◌==◌, string_eq, not, ◌≡◌, refl, sym, ◌∙◌,
  arith, Bool-cases, inl, inr, contains, contains-append, text_eq_iff,
}
use mathlib.Core.List.{append_assoc, append-nil}
use keera_gateway.Policy.Resolve.{append_filters}

abbrev pub NoRepeats : List String → Type 0
NoRepeats [] = Unit
NoRepeats (x ∷ xs) = (contains xs x ≡ false) × NoRepeats xs

NoRepeats-concat :
    (xs : List String) (x : String)
    → NoRepeats xs
    → contains xs x ≡ false
    → NoRepeats (xs ++ x ∷ [])
unfolding contains
NoRepeats-concat [] x h k = (refl, tt)
NoRepeats-concat (y ∷ xs) x (h, hs) k = (
  rw contains-append (ground (arith, text_eq_iff x y, text_eq_iff y x)),
  NoRepeats-concat xs x hs (ground arith),
)

members_nil :
    (cur : List String) (x : String)
    → contains cur x ≡ (contains cur x || (not (x == "") && contains [] x))
unfolding contains
members_nil cur x = ground arith

members_new :
    (cur next : List String) (alias x : String)
    → (not (alias == "") && not (contains cur alias)) ≡ true
    → (contains (cur ++ alias ∷ []) x || (not (x == "") && contains next x))
      ≡ (contains cur x || (not (x == "") && contains (alias ∷ next) x))
unfolding contains
members_new cur next alias x new = rw contains-append (ground (arith, text_eq_iff alias x))

members_old :
    (cur next : List String) (alias x : String)
    → (not (alias == "") && not (contains cur alias)) ≡ false
    → (contains cur x || (not (x == "") && contains next x))
      ≡ (contains cur x || (not (x == "") && contains (alias ∷ next) x))
unfolding contains
members_old cur next alias x old = ground (arith, text_eq_iff alias x)

-- What `appendFilters` makes of a list without repeats.
pub record IsFilterList (cur next out : List String) : Type 0 where
  pub added : List String
  pub kept_first : out ≡ cur ++ added
  pub no_repeats : NoRepeats out
  pub members :
      (x : String) → contains out x ≡ (contains cur x || (not (x == "") && contains next x))

-- Adding a level's filters keeps the outer levels' filters first and in their order, repeats none,
-- and holds exactly those of both lists, the empty name left out.
append_filters-IsFilterList :
    (cur next : List String) → NoRepeats cur → IsFilterList cur next (append_filters cur next)
unfolding append_filters
append_filters-IsFilterList cur [] h = record {
  added = [];
  kept_first = sym (append-nil cur);
  no_repeats = h;
  members = λ x. members_nil cur x;
}
append_filters-IsFilterList cur (alias ∷ next) h =
    elim (Bool-cases (not (alias == "") && not (contains cur alias))) [
      | inl new ↦
          let more =
            append_filters-IsFilterList (cur ++ alias ∷ []) next
              (NoRepeats-concat cur alias h (ground arith)) in
          rw new (record {
            added = alias ∷ more.added;
            kept_first = more.kept_first ∙ append_assoc cur (alias ∷ []) more.added;
            no_repeats = more.no_repeats;
            members = λ x. more.members x ∙ members_new cur next alias x new;
          })
      | inr old ↦
          let more = append_filters-IsFilterList cur next h in
          rw old (record {
            added = more.added;
            kept_first = more.kept_first;
            no_repeats = more.no_repeats;
            members = λ x. more.members x ∙ members_old cur next alias x old;
          })
    ]
