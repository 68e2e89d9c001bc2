-- ===== src/Gateway/Forward/Inflight.antt =====
-- The in-flight counts that `forward` of internal/gateway/forward.go keeps with `loads` of load.go.
use keera_gateway.Base.{
  ℕ, suc, String, Bool, true, false, Option, none, some, List, [], ◌∷◌, ◌++◌, ◌==◌, string_eq, ◌≡◌,
  refl, ap, ◌∙◌, if◌then◌else◌, Bool-cases, inl, inr, arith, text_eq_iff, text_eq_self,
}
use keera_gateway.Base.Dict.{Dict, get, put, get-put}
use keera_gateway.Base.Int.{ℤ, pos, negsuc, ◌+ℤ◌}
use keera_gateway.Base.Int64.{wrap, add64, InRange64, add64_assoc, add64-zero}
use keera_gateway.Policy.Model.{Model}
use keera_gateway.Gateway.Load.{DestLoad, Loads, load_or_new, load_of, begin, end_one, fail}
use keera_gateway.Gateway.Forward.{
  Network, Attempt, Failure, Forwarding, model_key, attempted, go_on, none_tried, forward_from,
  forward, done,
}

abbrev inflight : Loads → String → ℤ
inflight l k = (load_of l k).inflight

inflight-put :
    (l : Loads) (k j : String) (d : DestLoad)
    → inflight (put l k d) j ≡ (if k == j then d.inflight else inflight l j)
unfolding load_of load_or_new
inflight-put l k j d =
    ap (λ (o : Option DestLoad). (load_or_new o).inflight) (get-put l k j d) ∙ chosen (k == j)
  where
    chosen :
        (b : Bool)
        → (load_or_new (if b then some d else get l j)).inflight
          ≡ (if b then d.inflight else inflight l j)
    chosen true = refl
    chosen false = refl

inflight-begin :
    (l : Loads) (k j : String)
    → inflight (begin l k) j ≡ (if k == j then add64 (inflight l k) (pos 1) else inflight l j)
unfolding begin
inflight-begin l k j = inflight-put l k j _

inflight-end_one :
    (l : Loads) (k j : String)
    → inflight (end_one l k) j ≡ (if k == j then add64 (inflight l k) (negsuc 0) else inflight l j)
unfolding end_one
inflight-end_one l k j = inflight-put l k j _

inflight-fail : (l : Loads) (k j : String) (now : ℕ) → inflight (fail l k now) j ≡ inflight l j
unfolding fail
inflight-fail l k j now = inflight-put l k j _ ∙ elim (Bool-cases (k == j)) [
  | inl same ↦ rw ((text_eq_iff k j).0 same, text_eq_self j) refl
  | inr other ↦ rw other refl
]

one_less : add64 (pos 1) (negsuc 0) ≡ pos 0
unfolding add64 wrap ◌+ℤ◌
one_less = refl

add64-one : (a : ℤ) → InRange64 a → add64 (add64 a (pos 1)) (negsuc 0) ≡ a
add64-one a r =
    add64_assoc a (pos 1) (negsuc 0) ∙ ap (λ (b : ℤ). add64 a b) one_less ∙ add64-zero a r

-- Every count is the same.
abbrev SameCounts : Loads → Loads → Type 0
SameCounts l l' = (j : String) → inflight l' j ≡ inflight l j

-- Every count is the same but one, which counts one more.
abbrev OneMore : String → Loads → Loads → Type 0
OneMore k l l' =
    (j : String) → inflight l' j ≡ (if k == j then add64 (inflight l k) (pos 1) else inflight l j)

end_one-SameCounts :
    (k : String) (l l' : Loads)
    → InRange64 (inflight l k)
    → OneMore k l l'
    → SameCounts l (end_one l' k)
end_one-SameCounts k l l' r h j = inflight-end_one l' k j ∙ elim (Bool-cases (k == j)) [
  | inl same ↦
      rw (same, ← (text_eq_iff k j).0 same)
        (ap (λ (a : ℤ). add64 a (negsuc 0)) (ground (arith, h k, text_eq_self k))
          ∙ add64-one (inflight l k) r)
  | inr other ↦ rw other (ground (arith, h j, other))
]

module _ (net : Network) where
  attempted-OneMore :
      (m : Model) (i : ℕ) (f : Forwarding)
      → OneMore (model_key m) f.loads (attempted net m i f).1.loads
  unfolding attempted
  attempted-OneMore m i f = by_fault _
    where
      by_fault :
          (b : Bool)
          → OneMore (model_key m) f.loads (
              if b
              then fail (begin f.loads (model_key m)) (model_key m) (net.failed_at i)
              else begin f.loads (model_key m))
      by_fault true j =
          inflight-fail (begin f.loads (model_key m)) (model_key m) j (net.failed_at i)
          ∙ inflight-begin f.loads (model_key m) j
      by_fault false j = inflight-begin f.loads (model_key m) j

  abbrev AllInRange : Loads → Type 0
  AllInRange l = (j : String) → InRange64 (inflight l j)

  go_on-SameCounts :
      (a : Attempt) (c : Bool) (failure : Option Failure) (l : Loads) (f : Forwarding)
      (on : Forwarding → Forwarding)
      → AllInRange l
      → OneMore (model_key a.model) l f.loads
      → f.held ≡ none
      → ((f' : Forwarding)
          → AllInRange f'.loads
          → f'.held ≡ none
          → SameCounts f'.loads (done (on f')))
      → SameCounts l (done (go_on c a failure f on))
  unfolding go_on done
  go_on-SameCounts a true failure l f on r one e h j =
      end_one-SameCounts (model_key a.model) l f.loads (r (model_key a.model)) one j
  go_on-SameCounts a false none l f on r one e h j =
      end_one-SameCounts (model_key a.model) l f.loads (r (model_key a.model)) one j
  go_on-SameCounts a false (some failure) l f on r one e h j =
      let same = end_one-SameCounts (model_key a.model) l f.loads (r (model_key a.model)) one in
      let f' : Forwarding = record f {
        loads = end_one f.loads (model_key a.model);
        failures = f.failures ++ failure ∷ [];
      } in
      h f' (λ j'. rw (same j') (r j')) e j ∙ same j

  forward_from-SameCounts :
      (chain : List Model) (i : ℕ) (f : Forwarding)
      → AllInRange f.loads
      → f.held ≡ none
      → SameCounts f.loads (done (forward_from net chain i f))
  unfolding forward_from done
  forward_from-SameCounts [] i f r e = rw e (λ j. refl)
  forward_from-SameCounts (m ∷ rest) i f r e =
      go_on-SameCounts (attempted net m i f).0 _ _ f.loads (attempted net m i f).1
        (forward_from net rest (suc i)) r (attempted-OneMore m i f) e
        (forward_from-SameCounts rest (suc i))

  -- When the answer is done, every destination counts as many requests in flight as before, however
  -- many failed over. (The counts are `int64`s.)
  pub inflight-done-forward :
      (chain : List Model) (loads : Loads) (rr : Dict ℕ) (key : String)
      → ((j : String) → InRange64 (load_of loads j).inflight)
      → (load_of (done (forward net chain loads rr)) key).inflight ≡ (load_of loads key).inflight
  unfolding forward
  inflight-done-forward chain loads rr key r =
      forward_from-SameCounts chain 0 (none_tried loads rr) r refl key
