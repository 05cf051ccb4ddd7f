-- ===== src/Transports/ConnectionPool.antt =====
-- backend/app/transports/session.py and connection_pool.py. A pooled session is a value of the
-- parameter type; opening and closing it may fail or change it as the subclass says. The pool's
-- dictionary is an association list in insertion order. `get_or_create` holds the lock of its key
-- while it awaits `open`, so other keys may be served in between: `reserve` is what it does before
-- the await and `store` what it does after.
pub mod Laws
mod Examples
use network_operations_platf.Common.{
  ℕ, Bool, true, false, String, Option, none, some, List, [], ◌∷◌, ◌++◌, map, length, keep, str_eq,
  not, leb, if◌then◌else◌,
}

pub data PoolError : Type 0 where
  pool_full factory_failed open_failed : PoolError

pub data Result (A : Type 0) : Type 0 where
  ok : A → Result A
  err : PoolError → Result A

pub record TransportSession : Type 0 where
  pub session_id : String
  pub opened_at : Option ℕ
  pub closed_at : Option ℕ

pub is_open : TransportSession → Bool
is_open s = elim s.opened_at [
  | none ↦ false
  | some _ ↦ elim s.closed_at [ none ↦ true | some _ ↦ false ]
]

-- `open` of the base class.
pub open_session : ℕ → TransportSession → TransportSession
unfolding is_open
open_session now s = if is_open s then s else record s { opened_at = some now; closed_at = none }

pub mark_closed : ℕ → TransportSession → TransportSession
mark_closed now s = record s { closed_at = some now }

pub record ConnectionPool : Type 0 where
  pub max_size : ℕ
  pub sessions : List (String × TransportSession)

pub lookup : String → List (String × TransportSession) → Option TransportSession
lookup key [] = none
lookup key ((name, session) ∷ rest) = if str_eq name key then some session else lookup key rest

-- `self._sessions[key] = session`
pub insert :
    String → TransportSession → List (String × TransportSession) → List (String × TransportSession)
insert key session [] = (key, session) ∷ []
insert key session ((name, old) ∷ rest) =
    if str_eq name key then (name, session) ∷ rest else (name, old) ∷ insert key session rest

-- `self._sessions.pop(key, None)`
pub remove : String → List (String × TransportSession) → List (String × TransportSession)
remove key [] = []
remove key ((name, old) ∷ rest) =
    let others = remove key rest in if str_eq name key then others else (name, old) ∷ others

-- What `get_or_create` decides before it awaits: an old session, a refusal, or a new session.
pub data Reserved : Type 0 where
  cached : TransportSession → Reserved
  refused : Reserved
  create : Reserved

pub reserve : ConnectionPool → String → Reserved
reserve p key = elim (lookup key p.sessions) [
  | some s ↦ cached s
  | none ↦ if leb p.max_size (length p.sessions) then refused else create
]

pub store : ConnectionPool → String → TransportSession → ConnectionPool
store p key s = record p { sessions = insert key s p.sessions }

-- What a factory gives: an exception, a session that cannot be opened, or one that can.
pub data Factory : Type 0 where
  no_session unopened : Factory
  makes : TransportSession → Factory

created : ℕ → ConnectionPool → String → Factory → ConnectionPool × Result TransportSession
unfolding store open_session
created now p key no_session = (p, err factory_failed)
created now p key unopened = (p, err open_failed)
created now p key (makes s) = (store p key (open_session now s), ok (open_session now s))

pub get_or_create : ℕ → ConnectionPool → String → Factory → ConnectionPool × Result TransportSession
unfolding reserve created
get_or_create now p key factory = elim (reserve p key) [
  | cached s ↦ (p, ok s)
  | refused ↦ (p, err pool_full)
  | create ↦ created now p key factory
]

-- The pool after a release, and the session that was closed.
pub release : ℕ → ConnectionPool → String → ConnectionPool × Option TransportSession
unfolding lookup remove mark_closed
release now p key = elim (lookup key p.sessions) [
  | none ↦ (p, none)
  | some s ↦ (record p { sessions = remove key p.sessions }, some (mark_closed now s))
]

release_all : ℕ → ConnectionPool → List String → ConnectionPool
release_all now p [] = p
release_all now p (k ∷ ks) = release_all now (release now p k).0 ks

pub close_all : ℕ → ConnectionPool → ConnectionPool
unfolding release_all release
close_all now p = release_all now p (map (λ e. e.0) p.sessions)
