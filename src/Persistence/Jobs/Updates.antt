-- ===== src/Persistence/Jobs/Updates.antt =====
-- Reading the jobs table after an UPDATE or an INSERT (backend/app/persistence/
-- discovery_repositories.py), and the primary key.
use network_operations_platf.Common.{
  ℕ, ap₂, sym, ◌∙◌, ◌≡◌, refl, Bool, true, false, String, Option, none, some, List, [], ◌∷◌, ◌++◌,
  any, ◌==◌, eq_iff, ◌||◌, arith, if◌then◌else◌, Bool-cases, inl, inr,
}
use network_operations_platf.Discovery.Contracts.{DiscoveryJobStatus, status_eq}
use network_operations_platf.Persistence.Tables.{DiscoveryJobRecord, update_where, is_job, get}

pub status_eq_sound : (a b : DiscoveryJobStatus) → status_eq a b ≡ true → a ≡ b
status_eq_sound a b h = ground arith

-- The row a key stands for, after an UPDATE.
abbrev pub apply_if :
    (DiscoveryJobRecord → Bool)
    → (DiscoveryJobRecord → DiscoveryJobRecord)
    → Option DiscoveryJobRecord
    → Option DiscoveryJobRecord
apply_if p f none = none
apply_if p f (some r) = some (if p r then f r else r)

-- The values written leave the key alone.
abbrev pub KeepsKey : (DiscoveryJobRecord → DiscoveryJobRecord) → Type 0
KeepsKey f = (r : DiscoveryJobRecord) → ((f r).id ≡ r.id) × ((f r).tenant_id ≡ r.tenant_id)

pub get-update_where :
    (t : String) (k : ℕ) (p : DiscoveryJobRecord → Bool)
    (f : DiscoveryJobRecord → DiscoveryJobRecord) (rows : List DiscoveryJobRecord)
    → KeepsKey f
    → get t k (update_where p f rows) ≡ apply_if p f (get t k rows)
unfolding get update_where
get-update_where t k p f [] h = refl
get-update_where t k p f (r ∷ rs) h = ground (arith, h r, get-update_where t k p f rs h)

pub get-append :
    (t : String) (k : ℕ) (rows : List DiscoveryJobRecord) (r : DiscoveryJobRecord)
    → get t k (rows ++ r ∷ [])
      ≡ elim (get t k rows) [ none ↦ if is_job t k r then some r else none | some q ↦ some q ]
unfolding get
get-append t k [] r = ground arith
get-append t k (q ∷ rs) r = ground (arith, get-append t k rs r)

pub get-is_job :
    (t : String) (k : ℕ) (rows : List DiscoveryJobRecord) (r : DiscoveryJobRecord)
    → get t k rows ≡ some r
    → (r.id ≡ k) × (r.tenant_id ≡ t)
unfolding get
get-is_job t k [] r h = cc
get-is_job t k (q ∷ rs) r h = ground (arith, get-is_job t k rs r, eq_iff q.tenant_id t)

-- A row that was found by one key and has another is found by that one.
pub get_same :
    (u t : String) (j k : ℕ) (rows : List DiscoveryJobRecord) (r : DiscoveryJobRecord)
    → get u j rows ≡ some r
    → is_job t k r ≡ true
    → get t k rows ≡ some r
get_same u t j k rows r found holds =
    let at = get-is_job u j rows r found in
    let same_tenant : t ≡ u = sym ((eq_iff r.tenant_id t).0 (ground arith)) ∙ at.1 in
    let same_id : k ≡ j = ground (arith, at.0) in
    ap₂ (λ a b. get a b rows) same_tenant same_id ∙ found

-- No two rows have one identifier.
abbrev pub HasUniqueIds : List DiscoveryJobRecord → Type 0
HasUniqueIds [] = Unit
HasUniqueIds (r ∷ rs) = (any (λ q. q.id == r.id) rs ≡ false) × HasUniqueIds rs

any-id :
    (p : DiscoveryJobRecord → Bool) (k : ℕ) (rows : List DiscoveryJobRecord)
    → ((r : DiscoveryJobRecord) → p r ≡ true → r.id ≡ k)
    → any (λ q. q.id == k) rows ≡ false
    → any p rows ≡ false
any-id p k [] h e = refl
any-id p k (q ∷ rs) h e = ground (arith, h q, any-id p k rs h)

-- A guard on one key holds of some row exactly if it holds of the row of the key.
pub any-get :
    (p : DiscoveryJobRecord → Bool) (t : String) (k : ℕ) (rows : List DiscoveryJobRecord)
    → HasUniqueIds rows
    → ((r : DiscoveryJobRecord) → p r ≡ true → is_job t k r ≡ true)
    → any p rows ≡ true
    → (r : DiscoveryJobRecord) × (get t k rows ≡ some r) × (p r ≡ true)
unfolding get
any-get p t k [] u h e = cc
any-get p t k (q ∷ rs) u h e = elim (Bool-cases (p q)) [
  | inl y ↦ (q, ground (arith, h q), y)
  | inr n ↦
      let (r, found, holds) = any-get p t k rs u.1 h (ground arith) in
      (r, ground (arith, found, any-id p k rs (λ x y. ground (arith, h x y)), u.0, holds), holds)
]

pub any-id-update_where :
    (k : ℕ) (p : DiscoveryJobRecord → Bool) (f : DiscoveryJobRecord → DiscoveryJobRecord)
    (rows : List DiscoveryJobRecord)
    → KeepsKey f
    → any (λ q. q.id == k) (update_where p f rows) ≡ any (λ q. q.id == k) rows
unfolding update_where
any-id-update_where k p f [] h = refl
any-id-update_where k p f (r ∷ rs) h = ground (arith, h r, any-id-update_where k p f rs h)

pub update_where-HasUniqueIds :
    (p : DiscoveryJobRecord → Bool) (f : DiscoveryJobRecord → DiscoveryJobRecord)
    (rows : List DiscoveryJobRecord)
    → KeepsKey f
    → HasUniqueIds rows
    → HasUniqueIds (update_where p f rows)
unfolding update_where
update_where-HasUniqueIds p f [] h u = tt
update_where-HasUniqueIds p f (r ∷ rs) h u = (
  ground (arith, h r, u.0, any-id-update_where r.id p f rs h),
  update_where-HasUniqueIds p f rs h u.1,
)

any-append :
    (p : DiscoveryJobRecord → Bool) (rows : List DiscoveryJobRecord) (r : DiscoveryJobRecord)
    → any p (rows ++ r ∷ []) ≡ (any p rows || p r)
any-append p [] r = ground arith
any-append p (q ∷ rs) r = ground (arith, any-append p rs r)

pub append-HasUniqueIds :
    (rows : List DiscoveryJobRecord) (r : DiscoveryJobRecord)
    → any (λ q. q.id == r.id) rows ≡ false
    → HasUniqueIds rows
    → HasUniqueIds (rows ++ r ∷ [])
append-HasUniqueIds [] r e u = (refl, tt)
append-HasUniqueIds (q ∷ rs) r e u = (
  ground (arith, u.0, any-append (λ x. x.id == q.id) rs r),
  append-HasUniqueIds rs r (ground arith) u.1,
)
