-- ===== src/Session/Table.antt =====
-- The manager's map of sessions, `SessionManager::sessions` of src/session_manager.rs: the list of its
-- values, each under its own id.
use zeromux.Prelude.{
  ◌≡◌, refl, String, str_eq, eq_iff, not, Option, none, some, List, [], ◌∷◌, retain, arith,
  if◌then◌else◌,
}
use zeromux.Session.{Session}

abbrev pub Sessions : Type 0
Sessions = List Session

-- `get`.
unfoldable pub lookup : String → Sessions → Option Session
lookup id [] = none
lookup id (s ∷ ss) = let rest = lookup id ss in if str_eq s.id id then some s else rest

-- A write through `get_mut`.
unfoldable pub modify : String → (Session → Session) → Sessions → Sessions
modify id f [] = []
modify id f (s ∷ ss) = (if str_eq s.id id then f s else s) ∷ modify id f ss

unfoldable pub remove : String → Sessions → Sessions
remove id ss = retain (λ s. not (str_eq s.id id)) ss

-- A session is found under its own id.
pub id-lookup : (id : String) (ss : Sessions) (s : Session) → lookup id ss ≡ some s → s.id ≡ id
unfolding lookup
id-lookup id [] s e = cc
id-lookup id (r ∷ ss) s e = ground (arith, eq_iff r.id id, id-lookup id ss s)

pub lookup-modify :
    (f : Session → Session)
    → ((s : Session) → (f s).id ≡ s.id)
    → (id j : String) (ss : Sessions)
    → lookup j (modify id f ss)
      ≡ elim (lookup j ss) [ none ↦ none | some s ↦ some (if str_eq id j then f s else s) ]
unfolding lookup modify
lookup-modify f keeps id j [] = refl
lookup-modify f keeps id j (s ∷ ss) = ground (
  arith,
  eq_iff s.id id,
  eq_iff s.id j,
  eq_iff id j,
  keeps s,
  eq_iff (f s).id j,
  lookup-modify f keeps id j ss,
)

pub lookup-remove :
    (id j : String) (ss : Sessions)
    → lookup j (remove id ss) ≡ (if str_eq id j then none else lookup j ss)
unfolding lookup remove
lookup-remove id j [] = ground arith
lookup-remove id j (s ∷ ss) =
    ground (arith, eq_iff s.id id, eq_iff s.id j, eq_iff id j, lookup-remove id j ss)
