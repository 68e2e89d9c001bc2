-- ===== src/Gateway/Walk/Lands.antt =====
-- Where the walk of internal/gateway/router.go ends: at a model that `Reaches` lists.
use keera_gateway.Base.{
  String, true, false, none, some, List, [], ◌∷◌, ◌++◌, ◌==◌, string_eq, contains, any-append, All,
  All-split, Bool-cases, ◌≡◌, refl, inl, inr, sym, ◌∙◌, text_eq_self, arith,
}
use keera_gateway.Policy.Model.{Model}
use keera_gateway.Policy.Resolve.{Resolved}
use keera_gateway.Policy.Router.{
  Router, RouterRefs, Link, absent, to, Step, step, Branches, no_more, branch, branch_at, is_absent,
  fields, branches_of, steps, steps_in, step_filter, step_route, step_model, reaches,
  may_call_router,
}
use keera_gateway.Policy.Router.Reach.{has_end, sends_to, contains-reaches, may_call_router-located}
use keera_gateway.Policy.Router.Problems.{problem}
use keera_gateway.Policy.Router.Problems.Checked.{IsSound, problem-eq-none_iff}
use keera_gateway.Policy.Router.Problems.Answers.{use_none}
use keera_gateway.Policy.Router.Problems.Ends.{goes_on}
use keera_gateway.Gateway.Route.{route}
use keera_gateway.Gateway.Walk.Closed.{use_problem-IsClosed}
use keera_gateway.Gateway.Walk.{
  Call, World, Walked, placed, without_branch, walk, walk_branches, use_router,
}
use keera_gateway.Gateway.Walk.Parts.{
  IsWorld, other_kind, take_step-Lands, Sent, Lands, All-imp, Lands-more, router_filters-Lands,
  without_branch-All, has_end-contains,
}

-- The steps after a step, and those of its branches, are among those from it.
module _ (s : Step) (next exceeded bs : List Step) where
  Sent-next : (a : String) → Sent next a → Sent (s ∷ (next ++ (exceeded ++ bs))) a
  Sent-next a h = ground (arith, any-append (sends_to a) next (exceeded ++ bs))

  Sent-exceeded : (a : String) → Sent exceeded a → Sent (s ∷ (next ++ (exceeded ++ bs))) a
  Sent-exceeded a h =
      ground
        (arith, any-append (sends_to a) next (exceeded ++ bs), any-append (sends_to a) exceeded bs)

  Sent-branches : (a : String) → Sent bs a → Sent (s ∷ (next ++ (exceeded ++ bs))) a
  Sent-branches a h =
      ground
        (arith, any-append (sends_to a) next (exceeded ++ bs), any-append (sends_to a) exceeded bs)

Sent-route :
    (s : Step) (l : List Step) (a : String)
    → ((fields s).kind == step_route) ≡ true
    → ((fields s).kind == step_model) ≡ false
    → has_end (branches_of s) (fields s).destinations a ≡ true
    → Sent (s ∷ l) a
Sent-route s l a route other h = rw (other, route, h) refl

module _ (w : World) (world : IsWorld w) (p : Router) (refs : RouterRefs) where
  mutual
    unfolding walk steps

    lands :
        (link : Link)
        → is_absent link ≡ false
        → All (IsSound refs) (steps link)
        → (pending : List String) (c : Call) → Lands (steps link) (walk w p link pending c)
    lands absent h k pending c = cc h
    lands (to (step f next exceeded bs)) h ((ok, sound), rest) pending c =
        let s = step f next exceeded bs in
        let (shape, use') = use_none refs s sound in
        let (in_next, others) =
          All-split (IsSound refs) (steps next) (steps exceeded ++ steps_in bs) rest in
        let (in_exceeded, in_branches) =
          All-split (IsSound refs) (steps exceeded) (steps_in bs) others in
        let after : List Step = steps next ++ (steps exceeded ++ steps_in bs) in
        let l : List Step = s ∷ after in
        let on_next = λ (n : is_absent next ≡ false) (q : List String) (c' : Call).
          Lands-more (steps next) l (walk w p next q c')
            (Sent-next s (steps next) (steps exceeded) (steps_in bs)) (lands next n in_next q c') in
        elim (Bool-cases (f.kind == step_filter)) [
          | inl filter' ↦
              let n =
                goes_on refs s shape (other_kind f.kind step_filter step_model filter' refl)
                  (other_kind f.kind step_filter step_route filter' refl) in
              rw filter' (on_next n (pending ++ f.ref ∷ []) c)
          | inr no_filter ↦ rw no_filter (
              router_filters-Lands w l pending c _ (λ c'.
                take_step-Lands w l world p f (is_absent exceeded) c' _ _ _
                  (λ route'. use_problem-IsClosed refs p s use' route' no_filter)
                  (λ no_model' no_route. on_next (goes_on refs s shape no_model' no_route) [])
                  (λ e c''.
                    Lands-more (steps exceeded) l (walk w p exceeded [] c'')
                      (Sent-exceeded s (steps next) (steps exceeded) (steps_in bs))
                      (lands exceeded e in_exceeded [] c''))
                  (λ route' no_model' c'' alias chain.
                    Lands-branches bs c''.alias c'' l _
                      (λ r.
                        Lands-more (steps_in bs) l r
                          (Sent-branches s (steps next) (steps exceeded) (steps_in bs)))
                      (λ end. (
                        Sent-route s after c''.alias route' no_model'
                            (has_end-contains bs f.destinations c''.alias alias end),
                        All-imp (λ a e. Sent-route s after a route' no_model' e)
                            (without_branch bs c''.chain)
                            (without_branch-All bs f.destinations c''.chain chain),
                      ))
                      in_branches)
                  (λ model. rw (model, text_eq_self f.ref) refl)))
        ]

    Lands-branches :
        (bs : Branches) (a : String) (c : Call) (l : List Step) (last : Walked)
        → ((r : Walked) → Lands (steps_in bs) r → Lands l r)
        → (is_absent (branch_at bs a) ≡ true → Lands l last)
        → All (IsSound refs) (steps_in bs)
        → Lands l (walk_branches w p bs a c last)
    Lands-branches no_more a c l last h k sound = k refl
    Lands-branches (branch dest link rest) a c l last h k sound =
        let (in_link, in_rest) = All-split (IsSound refs) (steps link) (steps_in rest) sound in
        elim (Bool-cases (dest == a)) [
          | inr other ↦ rw other (
              Lands-branches rest a c l last
                (λ r q. h r (
                  Lands-more (steps_in rest) (steps link ++ steps_in rest) r
                    (λ b e. ground (arith, any-append (sends_to b) (steps link) (steps_in rest), e))
                    q))
                (λ e. k (rw other e)) in_rest)
          | inl same ↦ elim (Bool-cases (is_absent link)) [
            | inl none' ↦ rw (same, none') (k (rw same none'))
            | inr there ↦
                rw (same, there)
                  (h _ (
                    Lands-more (steps link) (steps link ++ steps_in rest) (walk w p link [] c)
                      (λ b e.
                        ground (arith, any-append (sends_to b) (steps link) (steps_in rest), e))
                      (lands link there in_link [] c)))
          ]
        ]

-- For a router that passes its checks: the walk ends in a refusal, or at a model that `Reaches`
-- lists, with a chain to fail over to of which the same holds. A measured order is one of the
-- same destinations, and a model is found under its own alias.
pub use_router-reaches :
    (w : World) (p : Router) (refs : RouterRefs) (c c' : Call)
    → IsWorld w
    → problem p refs ≡ none
    → use_router w p c ≡ placed c'
    → (contains (reaches p) c'.alias ≡ true)
      × All (λ (a : String). contains (reaches p) a ≡ true) c'.chain
unfolding use_router
use_router-reaches w p refs c c' world h e =
    let (_, start, _, _, sound) = (problem-eq-none_iff p refs).0 h in
    let landed : Lands (steps p.start) (placed c') =
      rw e at (lands w world p refs p.start start sound [] c) in
    (
      contains-reaches p c'.alias ∙ landed.0,
      All-imp (λ a k. contains-reaches p a ∙ k) c'.chain landed.1,
    )

-- A key whose locations are limited, and that may call a router which passes its checks: a request
-- that the router places is answered, also after failing over, by models that are known and run
-- in one of those locations. A measured order is one of the same destinations, and a model is found
-- under its own alias.
pub use_router-located :
    (w : World) (p : Router) (refs : RouterRefs) (r : Resolved) (l : List String) (c c' : Call)
    → IsWorld w
    → problem p refs ≡ none
    → may_call_router r p w.find ≡ true
    → r.allowed_locations ≡ some l
    → use_router w p c ≡ placed c'
    → All
        (λ (a : String). (m : Model) × (w.find a ≡ some m) × (contains l m.location ≡ true))
        (c'.alias ∷ c'.chain)
use_router-located w p refs r l c c' world h may e placed' =
    let (alias, chain) = use_router-reaches w p refs c c' world h placed' in
    All-imp
      (λ a k.
        let sent = sym (contains-reaches p a) ∙ k in
        (may_call_router-located r p w.find l a may e (ground (arith, sent))).2)
      (c'.alias ∷ c'.chain) (alias, chain)
