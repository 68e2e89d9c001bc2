-- ===== src/Gateway/Choice/Offered.antt =====
-- Whatever the model of a route step answers, it chooses one of the destinations offered to it.
use keera_gateway.Base.{
  ℕ, zero, suc, String, Bool, true, false, not, ◌&&◌, ◌||◌, Option, none, some, List, [], ◌∷◌,
  string_eq, nat_eq, length, bytes, contains, Bool-cases, ◌≡◌, refl, ◌⊎◌, inl, inr, text_eq_self,
  arith, trim_space,
}
use keera_gateway.Gateway.Choice.{
  ModelAnswer, weighed, wrote, no_text, rejected, broken, Reading, chose, unreadable, failed, Asked,
  Decision, read_decision, chose_or, label_of, label_index, chosen_destination, exactly, or_named,
  named_one, is_named, same_bytes, lower, nth, decide, once, again, labelled, trim_front, trim_back,
}

-- An option that holds an element of the list, if anything.
abbrev Within : List String → Option String → Type 0
Within xs none = Unit
Within xs (some x) = contains xs x ≡ true

Within-cons : (x : String) (xs : List String) (o : Option String) → Within xs o → Within (x ∷ xs) o
unfolding contains
Within-cons x xs none h = tt
Within-cons x xs (some y) h = ground arith

Within-head : (x : String) (xs : List String) → contains (x ∷ xs) x ≡ true
unfolding contains
Within-head x xs = rw (text_eq_self x) refl

Within-nth : (xs : List String) (i : ℕ) → Within xs (nth xs i)
Within-nth [] i = tt
Within-nth (x ∷ xs) zero = Within-head x xs
Within-nth (x ∷ xs) (suc i) = Within-cons x xs (nth xs i) (Within-nth xs i)

Within-exactly : (cleaned : List ℕ) (ds : List String) → Within ds (exactly cleaned ds)
unfolding exactly
Within-exactly cleaned [] = tt
Within-exactly cleaned (d ∷ ds) = elim (Bool-cases (same_bytes cleaned (lower (bytes d)))) [
  | inl same ↦ rw same (Within-head d ds)
  | inr other ↦ rw other (Within-cons d ds (exactly cleaned ds) (Within-exactly cleaned ds))
]

-- With a match from before, the loop keeps it or has none.
one_match :
    (text : List ℕ) (ds : List String) (f : String)
    → (named_one text ds (some f) ≡ none) ⊎ (named_one text ds (some f) ≡ some f)
unfolding named_one
one_match text [] f = inr refl
one_match text (d ∷ ds) f = elim (Bool-cases (is_named text d)) [
  | inl second ↦ inl (rw second refl)
  | inr other ↦ rw other (one_match text ds f)
]

Within-named_one : (text : List ℕ) (ds : List String) → Within ds (named_one text ds none)
unfolding named_one
Within-named_one text [] = tt
Within-named_one text (d ∷ ds) = elim (Bool-cases (is_named text d)) [
  | inr other ↦ rw other (Within-cons d ds (named_one text ds none) (Within-named_one text ds))
  | inl named ↦
      rw named
        (elim (one_match text ds d) [ inl two ↦ rw two tt | inr one ↦ rw one (Within-head d ds) ])
]

Within-or_named :
    (xs : List String) (a b : Option String) → Within xs a → Within xs b → Within xs (or_named a b)
unfolding or_named
Within-or_named xs none b h k = k
Within-or_named xs (some a) b h k = h

Within-chosen : (text : String) (ds : List String) → Within ds (chosen_destination text ds)
unfolding chosen_destination
Within-chosen text ds =
    Within-or_named ds (exactly (lower (trim_back (trim_front (bytes (trim_space text))))) ds)
      (named_one (lower (bytes text)) ds none) (Within-exactly _ ds) (Within-named_one _ ds)

Within-label : (offered : List String) (i : Option ℕ) → Within offered (label_of offered i)
unfolding label_of
Within-label offered none = tt
Within-label offered (some i) = Within-nth offered i

-- A reading that chooses an element of the list, if anything.
abbrev Chooses : List String → Reading → Type 0
Chooses xs (chose x sure) = contains xs x ≡ true
Chooses xs unreadable = Unit
Chooses xs failed = Unit

chose_or-Chooses :
    (xs : List String) (o : Option String) (sure : Bool) (other : Reading)
    → Within xs o
    → Chooses xs other
    → Chooses xs (chose_or o sure other)
unfolding chose_or
chose_or-Chooses xs none sure other h k = k
chose_or-Chooses xs (some x) sure other h k = h

read_decision-Chooses :
    (offered : List String) (by_letter : Bool) (a : ModelAnswer)
    → Chooses offered (read_decision offered by_letter a)
unfolding read_decision
read_decision-Chooses offered true (weighed i text) =
    chose_or-Chooses offered (nth offered i) true failed (Within-nth offered i) tt
read_decision-Chooses offered true (wrote text) =
    chose_or-Chooses offered (label_of offered (label_index text (length offered))) false unreadable
      (Within-label offered (label_index text (length offered))) tt
read_decision-Chooses offered false (weighed i text) =
    chose_or-Chooses offered (chosen_destination text offered) false failed
      (Within-chosen text offered) tt
read_decision-Chooses offered false (wrote text) =
    chose_or-Chooses offered (chosen_destination text offered) false failed
      (Within-chosen text offered) tt
read_decision-Chooses offered true no_text = tt
read_decision-Chooses offered true rejected = tt
read_decision-Chooses offered true broken = tt
read_decision-Chooses offered false no_text = tt
read_decision-Chooses offered false rejected = tt
read_decision-Chooses offered false broken = tt

again-Chooses :
    (offered : List String) (d : Decision) (ask : Bool → Asked) (r : Reading)
    → Chooses offered d.reading
    → Chooses offered (again offered d ask r).reading
unfolding again once
again-Chooses offered d ask unreadable h = read_decision-Chooses offered false (ask false).answer
again-Chooses offered d ask failed h = h
again-Chooses offered d ask (chose x true) h = h
again-Chooses offered d ask (chose x false) h = h

decide-Chooses :
    (only_weighs reads_logprobs : Bool) (ask : Bool → Asked) (offered : List String)
    → Chooses offered (decide only_weighs reads_logprobs ask offered).reading
unfolding decide once
decide-Chooses w r ask [] = tt
decide-Chooses w r ask (x ∷ xs) =
    let offered = x ∷ xs in
    let by_letter = labelled offered && (w || r) in
    let d = once offered by_letter (ask by_letter) in
    let first = read_decision-Chooses offered by_letter (ask by_letter).answer in
    elim (Bool-cases (not by_letter || w)) [
      | inl final ↦ rw final first
      | inr more ↦ rw more (again-Chooses offered d ask d.reading first)
    ]

-- Whatever the step's model answers, asked once or twice, a destination that it is read to choose
-- is one of those that it was offered.
pub decide-contains :
    (only_weighs reads_logprobs : Bool) (ask : Bool → Asked) (offered : List String)
    (alias : String) (sure : Bool)
    → (decide only_weighs reads_logprobs ask offered).reading ≡ chose alias sure
    → contains offered alias ≡ true
decide-contains w r ask offered alias sure h = rw h at (decide-Chooses w r ask offered)
