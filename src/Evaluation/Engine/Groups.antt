-- ===== src/Evaluation/Engine/Groups.antt =====
-- The grouping of rule results by policy (`_policy_results` of backend/app/evaluation/engine.py): what
-- holds of the groups while the results are put into them.
use network_operations_platf.Common.{
  ℕ, ◌≡◌, refl, sym, ap₂, ◌∙◌, subst, Bool, true, false, String, none, some, List, [], ◌∷◌, ◌++◌,
  any, keep, ◌==◌, ==_refl, arith, Bool-cases, Option-cases, inl, inr, if◌then◌else◌, All, ◌≢◌, inl,
  inr, ◌||◌, append_assoc, append-nil,
}
use network_operations_platf.Evaluation.Engine.{
  RuleEvaluationResult, Policy, policy_of, join, groups_of,
}

-- The result belongs to the policy of the identifier.
abbrev pub is_of : List (String × Policy) → ℕ → RuleEvaluationResult → Bool
is_of m id r = elim (policy_of m r.rule_key) [ none ↦ false | some p ↦ p.id == id ]

-- No identifier stands in two groups.
abbrev pub Distinct : List (Policy × List RuleEvaluationResult) → Type 0
Distinct [] = Unit
Distinct (g ∷ gs) = (any (λ h. h.0.id == g.0.id) gs ≡ false) × Distinct gs

-- Every group lists what of `seen` belongs to its policy, in the order of `seen`.
abbrev pub Lists :
    List (String × Policy)
    → List RuleEvaluationResult
    → List (Policy × List RuleEvaluationResult)
    → Type 0
Lists m seen gs = All (λ g. g.1 ≡ keep (is_of m g.0.id) seen) gs

-- What the groups are when the results of `seen` have been put into them.
pub record IsGrouped (m : List (String × Policy)) (seen : List RuleEvaluationResult)
    (gs : List (Policy × List RuleEvaluationResult)) : Type 0 where
  pub distinct : Distinct gs
  pub lists : Lists m seen gs
  pub covers : (id : ℕ) → any (λ g. g.0.id == id) gs ≡ any (is_of m id) seen

keep-snoc :
    (p : RuleEvaluationResult → Bool) (seen : List RuleEvaluationResult) (r : RuleEvaluationResult)
    → keep p (seen ++ r ∷ []) ≡ keep p seen ++ (if p r then r ∷ [] else [])
keep-snoc p [] r = ground arith
keep-snoc p (x ∷ xs) r = ground (arith, keep-snoc p xs r)

any-snoc :
    (p : RuleEvaluationResult → Bool) (seen : List RuleEvaluationResult) (r : RuleEvaluationResult)
    → any p (seen ++ r ∷ []) ≡ (any p seen || p r)
any-snoc p [] r = ground arith
any-snoc p (x ∷ xs) r = ground (arith, any-snoc p xs r)

keep-none :
    (p : RuleEvaluationResult → Bool) (seen : List RuleEvaluationResult)
    → any p seen ≡ false
    → keep p seen ≡ []
keep-none p [] h = refl
keep-none p (x ∷ xs) h = ground (arith, keep-none p xs)

module _ (m : List (String × Policy)) (p : Policy) (r : RuleEvaluationResult) where
  join-any :
      (id : ℕ) (gs : List (Policy × List RuleEvaluationResult))
      → any (λ g. g.0.id == id) (join p r gs) ≡ (any (λ g. g.0.id == id) gs || p.id == id)
  unfolding join
  join-any id [] = ground arith
  join-any id ((q, rs) ∷ gs) = elim (Bool-cases (q.id == p.id)) [
    | inl y ↦ let same : q.id ≡ p.id = ground arith in rw y (rw same (ground arith))
    | inr n ↦ ground (arith, n, join-any id gs)
  ]

  join-Distinct :
      (gs : List (Policy × List RuleEvaluationResult)) → Distinct gs → Distinct (join p r gs)
  unfolding join
  join-Distinct [] d = (refl, tt)
  join-Distinct ((q, rs) ∷ gs) d =
      let rest = join-Distinct gs d.1 in
      elim (Bool-cases (q.id == p.id)) [
        | inl y ↦
            let same : q.id ≡ p.id = ground arith in
            rw y (subst (λ k. any (λ g. g.0.id == k) gs ≡ false) same d.0, d.1)
        | inr n ↦ rw n (ground (arith, d.0, n, join-any q.id gs), rest)
      ]

  module _ (seen : List RuleEvaluationResult) (own : policy_of m r.rule_key ≡ some p) where
    here : (id : ℕ) → is_of m id r ≡ (p.id == id)
    here id = ground (arith, own)

    -- The groups of other policies list what they did.
    others :
        (gs : List (Policy × List RuleEvaluationResult))
        → any (λ g. g.0.id == p.id) gs ≡ false
        → Lists m seen gs
        → Lists m (seen ++ r ∷ []) gs
    others [] h a = tt
    others ((q, rs) ∷ gs) h a =
        let other : (p.id == q.id) ≡ false = ground arith in
        let off : is_of m q.id r ≡ false = here q.id ∙ other in
        (
          ground (arith, a.0, off, keep-snoc (is_of m q.id) seen r, append-nil rs),
          others gs (ground arith) a.1,
        )

    join-Lists :
        (gs : List (Policy × List RuleEvaluationResult))
        → (any (λ g. g.0.id == p.id) gs ≡ false → keep (is_of m p.id) seen ≡ [])
        → Distinct gs
        → Lists m seen gs
        → Lists m (seen ++ r ∷ []) (join p r gs)
    unfolding join
    join-Lists [] new d a =
        let on : is_of m p.id r ≡ true = here p.id ∙ ==_refl p.id in
        (ground (arith, new, on, keep-snoc (is_of m p.id) seen r), tt)
    join-Lists ((q, rs) ∷ gs) new d a = elim (Bool-cases (q.id == p.id)) [
      | inl y ↦
          let same : p.id ≡ q.id = ground arith in
          let on : is_of m q.id r ≡ true = here q.id ∙ ground (arith, same) in
          let alone : any (λ g. g.0.id == p.id) gs ≡ false =
            subst (λ k. any (λ g. g.0.id == k) gs ≡ false) (sym same) d.0 in
          rw y (ground (arith, a.0, on, keep-snoc (is_of m q.id) seen r), others gs alone a.1)
      | inr n ↦
          let off : is_of m q.id r ≡ false = here q.id ∙ ground (arith, n) in
          let rest = join-Lists gs (λ h. new (ground (arith, n, h))) d.1 a.1 in
          rw n (ground (arith, a.0, off, keep-snoc (is_of m q.id) seen r, append-nil rs), rest)
    ]

    join-IsGrouped :
        (gs : List (Policy × List RuleEvaluationResult))
        → IsGrouped m seen gs
        → IsGrouped m (seen ++ r ∷ []) (join p r gs)
    join-IsGrouped gs k = record {
      distinct = join-Distinct gs k.distinct;
      lists =
          join-Lists gs (λ h. keep-none (is_of m p.id) seen (sym (k.covers p.id) ∙ h)) k.distinct
            k.lists;
      covers = λ id.
          join-any id gs
          ∙ ap₂ (λ a b. a || b) (k.covers id) (sym (here id))
          ∙ sym (any-snoc (is_of m id) seen r);
    }

-- A result without a policy changes no group.
skipped-Lists :
    (m : List (String × Policy)) (r : RuleEvaluationResult) (seen : List RuleEvaluationResult)
    (gs : List (Policy × List RuleEvaluationResult))
    → policy_of m r.rule_key ≡ none
    → Lists m seen gs
    → Lists m (seen ++ r ∷ []) gs
skipped-Lists m r seen [] n a = tt
skipped-Lists m r seen ((q, rs) ∷ gs) n a =
    let off : is_of m q.id r ≡ false = ground (arith, n) in
    (
      ground (arith, a.0, off, keep-snoc (is_of m q.id) seen r, append-nil rs),
      skipped-Lists m r seen gs n a.1,
    )

pub groups-IsGrouped :
    (m : List (String × Policy)) (seen rs : List RuleEvaluationResult)
    (gs : List (Policy × List RuleEvaluationResult))
    → IsGrouped m seen gs
    → IsGrouped m (seen ++ rs) (groups_of m rs gs)
unfolding groups_of
groups-IsGrouped m seen [] gs k = rw (append-nil seen) k
groups-IsGrouped m seen (r ∷ rs) gs k =
    let assoc = append_assoc seen (r ∷ []) rs in
    elim (Option-cases (policy_of m r.rule_key)) [
      | inl n ↦
          let off : (id : ℕ) → is_of m id r ≡ false = λ id. ground (arith, n) in
          let next : IsGrouped m (seen ++ r ∷ []) gs = record {
            distinct = k.distinct;
            lists = skipped-Lists m r seen gs n k.lists;
            covers = λ id. ground (arith, k.covers id, off id, any-snoc (is_of m id) seen r);
          } in
          let e : groups_of m (r ∷ rs) gs ≡ groups_of m rs gs = ground (arith, n) in
          let rest = groups-IsGrouped m (seen ++ r ∷ []) rs gs next in
          subst (IsGrouped m (seen ++ r ∷ rs)) (sym e)
            (subst (λ z. IsGrouped m z (groups_of m rs gs)) assoc rest)
      | inr (p, n) ↦
          let next = join-IsGrouped m p r seen n gs k in
          let e : groups_of m (r ∷ rs) gs ≡ groups_of m rs (join p r gs) = ground (arith, n) in
          let rest = groups-IsGrouped m (seen ++ r ∷ []) rs (join p r gs) next in
          subst (IsGrouped m (seen ++ r ∷ rs)) (sym e)
            (subst (λ z. IsGrouped m z (groups_of m rs (join p r gs))) assoc rest)
    ]

-- Every group has a result.
abbrev pub FilledGroups : List (Policy × List RuleEvaluationResult) → Type 0
FilledGroups gs = All (λ g. g.1 ≢ []) gs

append-nonempty : (rs : List RuleEvaluationResult) (r : RuleEvaluationResult) → rs ++ r ∷ [] ≢ []
append-nonempty [] r h = cc
append-nonempty (x ∷ rs) r h = cc

join-FilledGroups :
    (p : Policy) (r : RuleEvaluationResult) (gs : List (Policy × List RuleEvaluationResult))
    → FilledGroups gs
    → FilledGroups (join p r gs)
unfolding join
join-FilledGroups p r [] a = (append-nonempty [] r, tt)
join-FilledGroups p r ((q, rs) ∷ gs) a =
    let rest = join-FilledGroups p r gs a.1 in
    elim (Bool-cases (q.id == p.id)) [
      | inl y ↦ rw y (append-nonempty rs r, a.1)
      | inr n ↦ rw n (a.0, rest)
    ]

pub groups-FilledGroups :
    (m : List (String × Policy)) (rs : List RuleEvaluationResult)
    (gs : List (Policy × List RuleEvaluationResult))
    → FilledGroups gs
    → FilledGroups (groups_of m rs gs)
unfolding groups_of
groups-FilledGroups m [] gs a = a
groups-FilledGroups m (r ∷ rs) gs a = elim (Option-cases (policy_of m r.rule_key)) [
  | inl n ↦
      let e : groups_of m (r ∷ rs) gs ≡ groups_of m rs gs = ground (arith, n) in
      let rest = groups-FilledGroups m rs gs a in subst FilledGroups (sym e) rest
  | inr (p, n) ↦
      let e : groups_of m (r ∷ rs) gs ≡ groups_of m rs (join p r gs) = ground (arith, n) in
      let rest = groups-FilledGroups m rs (join p r gs) (join-FilledGroups p r gs a) in
      subst FilledGroups (sym e) rest
]
