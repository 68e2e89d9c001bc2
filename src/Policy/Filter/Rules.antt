-- ===== src/Policy/Filter/Rules.antt =====
-- What a rule that passes its check does.
use keera_gateway.Base.{
  ◌≤◌, String, Bool, true, false, Option, none, some, ◌≡◌, ◌≢◌, refl, ◌⊎◌, arith, length, bytes,
  trim_space, text_eq_iff, string_eq,
}
use keera_gateway.Policy.Filter.{FilterRule, Compile, rule_problem, compiled_problem}

-- A rule of a pattern filter, under an engine of expressions.
pub record IsRule (compile : Compile) (r : FilterRule) : Type 0 where
  pub pattern : trim_space r.pattern ≢ ""
  pub short : length (bytes r.pattern) ≤ 512
  pub one_action : (r.refuse ≡ false) ⊎ (r.replace ≡ "")
  pub reason : length (bytes r.reason) ≤ 240
  pub reason_refuses : (r.refuse ≡ true) ⊎ (r.reason ≡ "")
  pub engine : (matches : String → Bool) × (compile r.pattern ≡ some matches) × (matches "" ≡ false)

compiled-eq-none :
    (o : Option (String → Bool))
    → compiled_problem o ≡ none
    → (matches : String → Bool) × (o ≡ some matches) × (matches "" ≡ false)
unfolding compiled_problem
compiled-eq-none none e = cc
compiled-eq-none (some matches) e = (matches, refl, ground arith)

-- A rule without a problem has a pattern of at most 512 bytes that compiles and does not match the
-- empty text, replaces or refuses but never both, and gives a reason, of at most 240 bytes, only
-- with a refusal, whatever the engine of expressions.
rule_problem-IsRule :
    (compile : Compile) (r : FilterRule) → rule_problem compile r ≡ none → IsRule compile r
unfolding rule_problem
rule_problem-IsRule compile r e = record {
  pattern = λ q. ground (arith, text_eq_iff (trim_space r.pattern) "");
  short = ground arith;
  one_action = ground (arith, text_eq_iff r.replace "");
  reason = ground arith;
  reason_refuses = ground (arith, text_eq_iff r.reason "");
  engine = compiled-eq-none (compile r.pattern) (ground arith);
}
