-- ===== src/Transports/ConnectionPool/Laws.antt =====
-- What the connection pool (backend/app/transports/connection_pool.py) keeps.
use network_operations_platf.Common.{
  ℕ, ◌+◌, ◌≤◌, ◌<◌, ◌≡◌, ◌≢◌, refl, true, false, String, none, some, List, [], ◌∷◌, map, length,
  All, any, str_eq, str_eq_refl, if◌then◌else◌, eq_iff, arith,
}
use network_operations_platf.Transports.ConnectionPool.{
  ok, Factory, no_session, unopened, makes, TransportSession, open_session, is_open, ConnectionPool,
  lookup, insert, remove, create, reserve, store, get_or_create, release, release_all, close_all,
}

abbrev Entries : Type 0
Entries = List (String × TransportSession)

lookup-insert :
    (key other : String) (session : TransportSession) (entries : Entries)
    → lookup other (insert key session entries)
      ≡ (if str_eq key other then some session else lookup other entries)
unfolding insert lookup
lookup-insert key other session [] = refl
lookup-insert key other session ((name, old) ∷ rest) =
    let tail = lookup-insert key other session rest in
    ground (arith, tail, eq_iff name other, eq_iff name key, eq_iff key other)

lookup-remove :
    (key other : String) (entries : Entries)
    → lookup other (remove key entries) ≡ (if str_eq key other then none else lookup other entries)
unfolding remove lookup
lookup-remove key other [] = ground arith
lookup-remove key other ((name, old) ∷ rest) =
    let tail = lookup-remove key other rest in
    ground (arith, tail, eq_iff name other, eq_iff name key, eq_iff key other)

length-insert :
    (k : String) (v : TransportSession) (m : Entries)
    → lookup k m ≡ none
    → length (insert k v m) ≡ length m + 1
unfolding lookup insert
length-insert k v [] h = omega arith
length-insert k v ((i, w) ∷ m) h = ground (arith, length-insert k v m)

length-remove-le : (k : String) (m : Entries) → length (remove k m) ≤ length m
unfolding remove
length-remove-le k [] = omega arith
length-remove-le k ((i, w) ∷ m) = ground (arith, length-remove-le k m)

abbrev pub IsBounded : ConnectionPool → Type 0
IsBounded p = length p.sessions ≤ p.max_size

-- Served one at a time, requests and releases keep the pool within its maximum size.
pub pool-IsBounded :
    (now : ℕ) (p : ConnectionPool) (key : String) (factory : Factory)
    → IsBounded p
    → IsBounded (get_or_create now p key factory).0 × IsBounded (release now p key).0
unfolding get_or_create release store
pool-IsBounded now p key no_session h =
    (ground arith, ground (arith, length-remove-le key p.sessions))
pool-IsBounded now p key unopened h =
    (ground arith, ground (arith, length-remove-le key p.sessions))
pool-IsBounded now p key (makes s) h = (
  ground (arith, length-insert key (open_session now s) p.sessions),
  ground (arith, length-remove-le key p.sessions),
)

lookup-get_or_create :
    (now : ℕ) (p q : ConnectionPool) (key : String) (factory : Factory) (s : TransportSession)
    → get_or_create now p key factory ≡ (q, ok s)
    → (lookup key q.sessions ≡ some s)
      × ((j : String) → j ≢ key → lookup j q.sessions ≡ lookup j p.sessions)
unfolding get_or_create store
lookup-get_or_create now p q key no_session s h = (ground arith, λ j ne. ground arith)
lookup-get_or_create now p q key unopened s h = (ground arith, λ j ne. ground arith)
lookup-get_or_create now p q key (makes t) s h = (
  ground (arith, lookup-insert key key (open_session now t) p.sessions, str_eq_refl key),
  λ j ne. ground (arith, lookup-insert key j (open_session now t) p.sessions, eq_iff key j),
)

reuse :
    (later : ℕ) (q : ConnectionPool) (key : String) (other : Factory) (s : TransportSession)
    → lookup key q.sessions ≡ some s
    → get_or_create later q key other ≡ (q, ok s)
unfolding get_or_create
reuse later q key other s h = ground arith

-- A session that was handed out is handed out again for its key, whatever the factory, with the
-- pool unchanged; and it disturbed no other key.
get_or_create_reuses :
    (now later : ℕ) (p q : ConnectionPool) (key : String) (factory other : Factory)
    (s : TransportSession)
    → get_or_create now p key factory ≡ (q, ok s)
    → (get_or_create later q key other ≡ (q, ok s))
      × ((j : String) → j ≢ key → lookup j q.sessions ≡ lookup j p.sessions)
get_or_create_reuses now later p q key factory other s h =
    let l = lookup-get_or_create now p q key factory s h in (reuse later q key other s l.0, l.1)

-- A release forgets its key, closes the session that was pooled for it and keeps the others.
pub lookup-release :
    (now : ℕ) (p : ConnectionPool) (k j : String)
    → (lookup j (release now p k).0.sessions ≡ (if str_eq k j then none else lookup j p.sessions))
      × ((s : TransportSession) → (release now p k).1 ≡ some s → is_open s ≡ false)
unfolding release is_open
lookup-release now p k j =
    (ground (arith, lookup-remove k j p.sessions, eq_iff k j), λ s h. ground arith)

abbrev Covered : List String → Entries → Type 0
Covered ks m = All (λ e. any (λ k. str_eq k e.0) ks ≡ true) m

Covered-remove :
    (k : String) (ks : List String) (m : Entries) → Covered (k ∷ ks) m → Covered ks (remove k m)
unfolding remove
Covered-remove k ks [] h = tt
Covered-remove k ks ((i, w) ∷ m) h =
    let rest = Covered-remove k ks m h.1 in ground (arith, eq_iff i k, eq_iff k i, rest)

Covered-cons : (k : String) (ks : List String) (m : Entries) → Covered ks m → Covered (k ∷ ks) m
Covered-cons k ks [] h = tt
Covered-cons k ks (e ∷ m) h = (ground arith, Covered-cons k ks m h.1)

Covered-self : (m : Entries) → Covered (map (λ e. e.0) m) m
Covered-self [] = tt
Covered-self (e ∷ m) =
    (ground (arith, str_eq_refl e.0), Covered-cons e.0 (map (λ d. d.0) m) m (Covered-self m))

remove_absent : (k : String) (m : Entries) → lookup k m ≡ none → remove k m ≡ m
unfolding lookup remove
remove_absent k [] h = refl
remove_absent k ((i, w) ∷ m) h = ground (arith, remove_absent k m)

sessions-release :
    (now : ℕ) (p : ConnectionPool) (k : String) → (release now p k).0.sessions ≡ remove k p.sessions
unfolding release
sessions-release now p k = ground (arith, remove_absent k p.sessions)

release_all-Covered :
    (now : ℕ) (p : ConnectionPool) (ks : List String)
    → Covered ks p.sessions
    → (release_all now p ks).sessions ≡ []
unfolding release_all
release_all-Covered now p [] h = ground arith
release_all-Covered now p (k ∷ ks) h =
    release_all-Covered now (release now p k).0 ks
      (rw (sessions-release now p k) (Covered-remove k ks p.sessions h))

-- Closing all leaves no session in the pool.
pub close_all_empties : (now : ℕ) (p : ConnectionPool) → (close_all now p).sessions ≡ []
unfolding close_all
close_all_empties now p = release_all-Covered now p _ (Covered-self p.sessions)

-- Two requests for different new keys, on a pool with one place left, both pass the size test
-- when they are made before either stores its session, and the pool then exceeds its maximum.
pub overshoot :
    (p : ConnectionPool) (k j : String) (s t : TransportSession)
    → length p.sessions + 1 ≡ p.max_size
    → lookup k p.sessions ≡ none
    → lookup j p.sessions ≡ none
    → k ≢ j
    → (reserve p k ≡ create)
      × (reserve p j ≡ create)
      × (p.max_size < length (store (store p k s) j t).sessions)
unfolding reserve store
overshoot p k j s t full hk hj ne = (
  ground arith,
  ground arith,
  ground (
    arith,
    length-insert k s p.sessions,
    length-insert j t (insert k s p.sessions),
    lookup-insert k j s p.sessions,
    eq_iff k j,
  ),
)
