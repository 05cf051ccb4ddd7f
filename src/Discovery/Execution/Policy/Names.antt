-- ===== src/Discovery/Execution/Policy/Names.antt =====
-- The lists of transport names in backend/app/discovery/execution.py: no name is repeated or made up.
use network_operations_platf.Common.{
  ◌≡◌, refl, sym, subst, true, false, String, Option, none, some, List, [], ◌∷◌, any, All, str_eq,
  lower, arith, Bool-cases, inl, inr, str_eq_refl, eq_iff,
}
use network_operations_platf.Discovery.Execution.Policy.{unique_names, remove, preferred_first}

-- No name stands twice.
abbrev pub NoRepeats : List String → Type 0
NoRepeats [] = Unit
NoRepeats (t ∷ ts) = (any (str_eq t) ts ≡ false) × NoRepeats ts

pub unique_names-All :
    (P : String → Type 0) (seen ts : List String) → All P ts → All P (unique_names seen ts)
unfolding unique_names
unique_names-All P seen [] p = tt
unique_names-All P seen (t ∷ ts) p = elim (Bool-cases (any (str_eq t) seen)) [
  | inl y ↦ rw y (unique_names-All P seen ts p.1)
  | inr n ↦ rw n ((p.0, unique_names-All P (t ∷ seen) ts p.1))
]

pub remove-All :
    (P : String → Type 0) (name : String) (ts : List String) → All P ts → All P (remove name ts)
unfolding remove
remove-All P name [] p = tt
remove-All P name (t ∷ ts) p = elim (Bool-cases (str_eq t name)) [
  | inl y ↦ rw y (p.1)
  | inr n ↦ rw n ((p.0, remove-All P name ts p.1))
]

All-any :
    (P : String → Type 0) (name : String) (ts : List String)
    → any (str_eq name) ts ≡ true
    → All P ts
    → P name
All-any P name [] e p = ground (arith, e)
All-any P name (t ∷ ts) e p = elim (Bool-cases (str_eq name t)) [
  | inl y ↦ subst P (sym ((eq_iff name t).0 y)) p.0
  | inr n ↦ All-any P name ts (ground (arith, e, n)) p.1
]

pub preferred_first-All :
    (P : String → Type 0) (preferred : Option String) (ts : List String)
    → All P ts
    → All P (preferred_first preferred ts)
unfolding preferred_first
preferred_first-All P none ts p = p
preferred_first-All P (some t) ts p = elim (Bool-cases (any (str_eq (lower t)) ts)) [
  | inl y ↦ rw y ((All-any P (lower t) ts y p, remove-All P (lower t) ts p))
  | inr n ↦ rw n p
]

seen-unique_names :
    (x : String) (seen ts : List String)
    → any (str_eq x) seen ≡ true
    → any (str_eq x) (unique_names seen ts) ≡ false
unfolding unique_names
seen-unique_names x seen [] s = refl
seen-unique_names x seen (t ∷ ts) s = elim (Bool-cases (any (str_eq t) seen)) [
  | inl y ↦ rw y (seen-unique_names x seen ts s)
  | inr n ↦ elim (Bool-cases (str_eq x t)) [
    | inl e ↦
        let q : any (str_eq x) seen ≡ false =
          subst (λ z. any (str_eq z) seen ≡ false) (sym ((eq_iff x t).0 e)) n in
        ground (arith, q, s)
    | inr d ↦ ground (arith, n, d, seen-unique_names x (t ∷ seen) ts (ground (arith, s)))
  ]
]

pub unique_names-NoRepeats : (seen ts : List String) → NoRepeats (unique_names seen ts)
unfolding unique_names
unique_names-NoRepeats seen [] = tt
unique_names-NoRepeats seen (t ∷ ts) = elim (Bool-cases (any (str_eq t) seen)) [
  | inl y ↦ rw y (unique_names-NoRepeats seen ts)
  | inr n ↦ rw n (
      (
        seen-unique_names t (t ∷ seen) ts (ground (arith, str_eq_refl t)),
        unique_names-NoRepeats (t ∷ seen) ts,
      ))
]

absent-remove :
    (x name : String) (ts : List String)
    → any (str_eq x) ts ≡ false
    → any (str_eq x) (remove name ts) ≡ false
unfolding remove
absent-remove x name [] a = refl
absent-remove x name (t ∷ ts) a =
    let rest : any (str_eq x) ts ≡ false = ground (arith, a) in
    ground (arith, a, absent-remove x name ts rest)

remove-NoRepeats : (name : String) (ts : List String) → NoRepeats ts → NoRepeats (remove name ts)
unfolding remove
remove-NoRepeats name [] d = tt
remove-NoRepeats name (t ∷ ts) d = elim (Bool-cases (str_eq t name)) [
  | inl y ↦ rw y (d.1)
  | inr n ↦ rw n ((absent-remove t name ts d.0, remove-NoRepeats name ts d.1))
]

-- A name that stood once is gone.
removed-remove :
    (name : String) (ts : List String) → NoRepeats ts → any (str_eq name) (remove name ts) ≡ false
unfolding remove
removed-remove name [] d = refl
removed-remove name (t ∷ ts) d = elim (Bool-cases (str_eq t name)) [
  | inl y ↦ rw y (subst (λ z. any (str_eq z) ts ≡ false) ((eq_iff t name).0 y) d.0)
  | inr n ↦ elim (Bool-cases (str_eq name t)) [
    | inl e ↦
        let q : str_eq t name ≡ true = (eq_iff t name).1 (sym ((eq_iff name t).0 e)) in
        ground (arith, q, n)
    | inr m ↦ ground (arith, n, m, removed-remove name ts d.1)
  ]
]

pub preferred_first-NoRepeats :
    (preferred : Option String) (ts : List String)
    → NoRepeats ts
    → NoRepeats (preferred_first preferred ts)
unfolding preferred_first
preferred_first-NoRepeats none ts d = d
preferred_first-NoRepeats (some t) ts d = elim (Bool-cases (any (str_eq (lower t)) ts)) [
  | inl y ↦ rw y ((removed-remove (lower t) ts d, remove-NoRepeats (lower t) ts d))
  | inr n ↦ rw n d
]
