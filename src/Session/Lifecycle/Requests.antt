-- ===== src/Session/Lifecycle/Requests.antt =====
-- The requests of src/web.rs that end, close and restore a session, and the closes that are carried out
-- when the server starts.
use zeromux.Prelude.{
  ℕ, ◌+◌, String, str_eq, Bool, true, false, not, ◌&&◌, none, some, List, [], ◌∷◌, ◌++◌, is_some,
  if◌then◌else◌, ◌≡◌, arith,
}
use zeromux.Session.Lifecycle.{
  Answer, Call, forget_log, pending_kill_ms, pend, revive, restore, mark_pending_kill,
  remove_session, finalize_pending_kill,
}
use zeromux.Session.Table.{Sessions, lookup, modify}

pub record User : Type 0 where
  pub id : String
  pub is_admin : Bool

pub data Status : Type 0 where
  ok forbidden conflict gone not_found : Status
  pending_until : ℕ → Status

unfoldable pub is_owner : String → String → Sessions → Bool
is_owner id user ss = elim (lookup id ss) [ none ↦ false | some s ↦ str_eq s.owner_id user ]

refused : User → String → Sessions → Bool
unfolding is_owner
refused user id ss = not user.is_admin && not (is_owner id user.id ss)

answer : Status → Status → Answer Bool → Answer Status
answer yes_status no_status (done, calls, ss) = (if done then yes_status else no_status, calls, ss)

unfoldable pub revive_session : User → String → Sessions → Answer Status
unfolding refused answer
revive_session user id ss =
    if refused user id ss then (forbidden, [], ss) else answer ok conflict (revive id ss)

unfoldable pub restore_session : User → String → Sessions → Answer Status
unfolding refused answer
restore_session user id ss =
    if refused user id ss then (forbidden, [], ss) else answer ok gone (restore id ss)

-- The log of a session that is gone is forgotten.
with_log : String → Answer Bool → Answer Bool
with_log id (true, calls, ss) = (true, calls ++ (forget_log id ∷ []), ss)
with_log id (false, calls, ss) = (false, calls, ss)

remove_now : String → Answer Bool → Sessions → ℕ → Answer Status
unfolding with_log answer
remove_now id (true, calls, pending) ss now =
    (pending_until (now + pending_kill_ms), calls, pending)
remove_now id (false, calls, pending) ss now =
    answer ok not_found (with_log id (remove_session id ss))

-- A terminal waits for its undo window; the task that ends it then is `finalize_later`.
unfoldable pub delete_session : User → String → ℕ → Sessions → Answer Status
unfolding refused remove_now
delete_session user id now ss =
    if refused user id ss
    then (forbidden, [], ss)
    else remove_now id (mark_pending_kill id now ss) ss now

unfoldable pub finalize_later : String → ℕ → Sessions → Answer Bool
unfolding with_log
finalize_later id now ss = with_log id (finalize_pending_kill id now ss)

pending_ids : Sessions → List String
pending_ids [] = []
pending_ids (s ∷ ss) =
    let rest = pending_ids ss in if is_some s.pending_kill_until then s.id ∷ rest else rest

finalize_all : List String → ℕ → Sessions → List Call × Sessions
finalize_all [] now ss = ([], ss)
finalize_all (id ∷ ids) now ss =
    let (_, calls, left) = finalize_pending_kill id now (modify id (pend (some 0)) ss) in
    let (more, last) = finalize_all ids now left in (calls ++ more, last)

unfoldable pub reconcile_pending_kills : ℕ → Sessions → List Call × Sessions
unfolding pending_ids finalize_all
reconcile_pending_kills now ss = finalize_all (pending_ids ss) now ss

-- A request about a session, by its user.
pub data Request : Type 0 where
  revival restoral : String → Request
  deletion : String → ℕ → Request

unfoldable pub target : Request → String
target (revival id) = id
target (restoral id) = id
target (deletion id now) = id

unfoldable pub handle : User → Request → Sessions → Answer Status
handle user (revival id) ss = revive_session user id ss
handle user (restoral id) ss = restore_session user id ss
handle user (deletion id now) ss = delete_session user id now ss

-- A user who is no admin and does not own the session that is asked for is refused, whatever the
-- request: nothing changes and nothing is called.
pub stranger_refused :
    (user : User) (r : Request) (ss : Sessions)
    → user.is_admin ≡ false
    → is_owner (target r) user.id ss ≡ false
    → handle user r ss ≡ (forbidden, [], ss)
unfolding handle target revive_session restore_session delete_session
stranger_refused user (revival id) ss h k = ground arith
stranger_refused user (restoral id) ss h k = ground arith
stranger_refused user (deletion id now) ss h k = ground arith
