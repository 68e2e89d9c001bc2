-- ===== src/Gateway/Choice.antt =====
-- How a route step's model chooses a destination: `labelIndex` and `labelled` of
-- internal/gateway/choice.go, and `chosenDestination`, `readDecision` and `decide` of route.go. Texts
-- are bytes in UTF-8. A letter beyond ASCII keeps its case here; an alias has none. What the model
-- answers is an argument: `ask` says it of a question by letter or by name.
pub mod Offered
use keera_gateway.Base.{
  ℕ, zero, suc, ◌+◌, ◌-◌, ◌%◌, String, Bool, true, false, not, ◌&&◌, ◌||◌, Option, none, some, List,
  [], ◌∷◌, ◌++◌, ◌==◌, string_eq, nat_eq, ltb, leb, length, bytes, map, trim_space, any,
  if◌then◌else◌,
}
use keera_gateway.Base.Int.{ℤ, pos}
use keera_gateway.Base.Int64.{add64}
use keera_gateway.Policy.Bill.{BillLine}

-- `labelled`
unfoldable pub labelled : List String → Bool
labelled offered = ltb 0 (length offered) && leb (length offered) 26

one_byte_label : List ℕ → ℕ → Option ℕ
one_byte_label [] n = none
one_byte_label (c ∷ d ∷ rest) n = none
one_byte_label (c ∷ []) n =
    let upper = if leb b'a' c && leb c b'z' then c - 32 else c in
    let i = (upper + 256 - b'A') % 256 in if ltb i n then some i else none

-- `labelIndex`
unfoldable pub label_index : String → ℕ → Option ℕ
unfolding one_byte_label
label_index token n = one_byte_label (bytes (trim_space token)) n

abbrev lower_byte : ℕ → ℕ
lower_byte c = if leb b'A' c && leb c b'Z' then c + 32 else c

unfoldable pub lower : List ℕ → List ℕ
lower s = map lower_byte s

-- What `strings.Trim` takes off an answer: ` * # > _ - " ' . , : ; ! and spaces
trimmed : ℕ → Bool
trimmed c =
    any (λ (d : ℕ). d == c)
      (0x60 ∷ 0x2a ∷ 0x23 ∷ 0x3e ∷ 0x5f ∷ 0x2d ∷ 0x22 ∷ 0x27 ∷ 0x2e ∷ 0x2c ∷ 0x3a ∷ 0x3b ∷ 0x21
        ∷ 0x20 ∷ 0x09 ∷ 0x0a ∷ 0x0d ∷ [])

trim_front : List ℕ → List ℕ
trim_front [] = []
trim_front (c ∷ s) = let rest = trim_front s in if trimmed c then rest else c ∷ s

trim_back : List ℕ → List ℕ
trim_back [] = []
trim_back (c ∷ s) = let rest = trim_back s in if length rest == 0 && trimmed c then [] else c ∷ rest

unfoldable pub same_bytes : List ℕ → List ℕ → Bool
same_bytes [] [] = true
same_bytes [] (d ∷ ds) = false
same_bytes (c ∷ cs) [] = false
same_bytes (c ∷ cs) (d ∷ ds) = c == d && same_bytes cs ds

starts : List ℕ → List ℕ → Bool
starts s [] = true
starts [] (d ∷ t) = false
starts (c ∷ s) (d ∷ t) = c == d && starts s t

-- `strings.Index`: where the text first stands
unfoldable pub index_of : List ℕ → List ℕ → Option ℕ
unfolding starts
index_of [] t = if starts [] t then some 0 else none
index_of (c ∷ s) t =
    let later = index_of s t in
    if starts (c ∷ s) t then some 0 else elim later [ none ↦ none | some i ↦ some (suc i) ]

byte_at : List ℕ → ℕ → Option ℕ
byte_at [] i = none
byte_at (c ∷ s) zero = some c
byte_at (c ∷ s) (suc i) = byte_at s i

alias_byte : Option ℕ → Bool
alias_byte none = false
alias_byte (some c) = leb b'a' c && leb c b'z' || leb b'0' c && leb c b'9' || c == 0x2d || c == 0x2f

-- `isAliasByte` of the bytes before and after
before_at : List ℕ → ℕ → Bool
before_at s zero = false
before_at s (suc i) = alias_byte (byte_at s i)

unfoldable pub stands_alone : List ℕ → ℕ → ℕ → Bool
unfolding before_at alias_byte byte_at
stands_alone s at n = not (before_at s at || alias_byte (byte_at s (at + n)))

-- Whether the loop counts an alias: where it first stands, it is not part of a longer name
counts_at : List ℕ → ℕ → Option ℕ → Bool
counts_at lower_text n none = false
counts_at lower_text n (some at) = stands_alone lower_text at n

unfoldable pub is_named : List ℕ → String → Bool
unfolding counts_at stands_alone index_of lower
is_named lower_text alias =
    counts_at lower_text (length (bytes alias)) (index_of lower_text (lower (bytes alias)))

-- The loop that counts; a second match ends it
named_one : List ℕ → List String → Option String → Option String
named_one lower_text [] found = found
named_one lower_text (alias ∷ rest) none =
    let next = if is_named lower_text alias then some alias else none in
    named_one lower_text rest next
named_one lower_text (alias ∷ rest) (some f) =
    let next = named_one lower_text rest (some f) in
    if is_named lower_text alias then none else next

exactly : List ℕ → List String → Option String
exactly cleaned [] = none
exactly cleaned (alias ∷ rest) =
    let later = exactly cleaned rest in
    if same_bytes cleaned (lower (bytes alias)) then some alias else later

or_named : Option String → Option String → Option String
or_named (some alias) later = some alias
or_named none later = later

-- `chosenDestination`
unfoldable pub chosen_destination : String → List String → Option String
unfolding exactly or_named named_one trim_front trim_back trimmed is_named same_bytes lower
chosen_destination text destinations =
    let cleaned = lower (trim_back (trim_front (bytes (trim_space text)))) in
    or_named (exactly cleaned destinations) (named_one (lower (bytes text)) destinations none)

abbrev pub nth : List String → ℕ → Option String
nth [] i = none
nth (x ∷ xs) zero = some x
nth (x ∷ xs) (suc i) = nth xs i

-- What the step's model answers: text, with a distribution whose best letter has this index or
-- without one, an answer without text, a status that refuses the fields asked for, or nothing that
-- can be used, as when it was too long to ask.
pub data ModelAnswer : Type 0 where
  weighed : ℕ → String → ModelAnswer
  wrote : String → ModelAnswer
  no_text rejected broken : ModelAnswer

pub data Reading : Type 0 where
  chose : String → Bool → Reading
  unreadable failed : Reading

chose_or : Option String → Bool → Reading → Reading
chose_or none sure other = other
chose_or (some alias) sure other = chose alias sure

label_of : List String → Option ℕ → Option String
label_of offered none = none
label_of offered (some i) = nth offered i

-- `readDecision`, with the statuses that `decideOnce` reads first; a choice says whether it came
-- with a distribution
unfoldable pub read_decision : List String → Bool → ModelAnswer → Reading
unfolding chose_or label_of label_index chosen_destination
read_decision offered true (weighed i text) = chose_or (nth offered i) true failed
read_decision offered true (wrote text) =
    chose_or (label_of offered (label_index text (length offered))) false unreadable
read_decision offered true no_text = unreadable
read_decision offered true rejected = unreadable
read_decision offered true broken = failed
read_decision offered false (weighed i text) =
    chose_or (chosen_destination text offered) false failed
read_decision offered false (wrote text) = chose_or (chosen_destination text offered) false failed
read_decision offered false no_text = failed
read_decision offered false rejected = failed
read_decision offered false broken = failed

-- One answer with what it cost.
pub record Asked : Type 0 where
  pub answer : ModelAnswer
  pub micros : ℤ
  pub bills : List BillLine

pub record Decision : Type 0 where
  pub reading : Reading
  pub micros : ℤ
  pub bills : List BillLine
  pub drops_logprobs : Bool

once : List String → Bool → Asked → Decision
once offered by_letter a = record {
  reading = read_decision offered by_letter a.answer;
  micros = a.micros;
  bills = a.bills;
  drops_logprobs = false;
}

-- After a question by letter of a model that also writes names
again : List String → Decision → (Bool → Asked) → Reading → Decision
again offered d ask unreadable =
    let retry = once offered false (ask false) in
    record retry {
      micros = add64 retry.micros d.micros;
      bills = retry.bills ++ d.bills;
      drops_logprobs = true;
    }
again offered d ask (chose alias false) = record d { drops_logprobs = true }
again offered d ask (chose alias true) = d
again offered d ask failed = d

-- `decide`; `only_weighs` says that the model is a decision model, `reads_logprobs` that its backend
-- is believed to answer with a distribution
unfoldable pub decide : Bool → Bool → (Bool → Asked) → List String → Decision
unfolding once again labelled read_decision
decide only_weighs reads_logprobs ask [] = record {
  reading = failed;
  micros = pos 0;
  bills = [];
  drops_logprobs = false;
}
decide only_weighs reads_logprobs ask (x ∷ xs) =
    let offered = x ∷ xs in
    let by_letter = labelled offered && (only_weighs || reads_logprobs) in
    let d = once offered by_letter (ask by_letter) in
    if not by_letter || only_weighs then d else again offered d ask d.reading
