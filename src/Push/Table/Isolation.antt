-- ===== src/Push/Table/Isolation.antt =====
-- What the requests of a user, and the answers to notifications, do to the rows of the others.
use zeromux.Prelude.{
  ◌≡◌, refl, ◌∙◌, String, str_eq, Bool, true, false, not, ◌&&◌, Option, [], ◌∷◌, ◌++◌, map, Text,
  text_eq, arith, retain, if_cases, eq_iff,
}
use zeromux.Push.Endpoint.{Url, endpoint_is_safe}
use zeromux.Push.Table.{
  Subscription, Rows, owned, has_endpoint, overwrite, put, is_stale, newest, prune, upsert, delete,
  delete_for_user, delivered, gone, transient_err, handle_delivery_outcome, push_subscribe, Request,
  subscribe, unsubscribe, answered, acting_user, serve,
}

-- The rows of the other users, in their order.
abbrev pub others : String → Rows → Rows
others user = retain (λ r. not (owned user r))

others-overwrite :
    (new : Subscription) (rows : Rows)
    → others new.user_id (map (overwrite new) rows) ≡ others new.user_id rows
unfolding overwrite
others-overwrite new [] = refl
others-overwrite new (r ∷ rs) = ground (arith, others-overwrite new rs)

others-append :
    (new : Subscription) (rows : Rows)
    → str_eq new.user_id new.user_id ≡ true
    → others new.user_id (rows ++ new ∷ []) ≡ others new.user_id rows
others-append new [] h = ground arith
others-append new (r ∷ rs) h = ground (arith, others-append new rs h)

-- Rows of the user alone are dropped.
others-retain :
    (user : String) (p : Subscription → Bool) (rows : Rows)
    → ((r : Subscription) → owned user r ≡ false → p r ≡ true)
    → others user (retain p rows) ≡ others user rows
others-retain user p [] h = refl
others-retain user p (r ∷ rs) h = ground (arith, others-retain user p rs h, h r)

str_eq_refl : (s : String) → str_eq s s ≡ true
str_eq_refl s = (eq_iff s s).1 refl

pub others-upsert :
    (new : Subscription) (rows : Rows)
    → others new.user_id (upsert new rows) ≡ others new.user_id rows
unfolding upsert prune put
others-upsert new rows =
    let kept = put new rows in
    others-retain new.user_id
      (λ r. not (is_stale new.user_id new.endpoint (newest new.user_id kept) r)) kept
      (λ r. λ h. ground arith)
    ∙ if_cases (λ t. others new.user_id t ≡ others new.user_id rows)
        (has_endpoint rows new.endpoint) (map (overwrite new) rows) (rows ++ new ∷ [])
        (λ _. others-overwrite new rows) (λ _. others-append new rows (str_eq_refl new.user_id))

others-delete :
    (user : String) (endpoint : Text) (rows : Rows)
    → others user (delete endpoint rows)
      ≡ retain (λ r. not (text_eq r.endpoint endpoint)) (others user rows)
unfolding delete
others-delete user endpoint [] = refl
others-delete user endpoint (r ∷ rs) = ground (arith, others-delete user endpoint rs)

-- What is left of the rows of the others: all, but when a push service says that an endpoint is gone.
abbrev pub left_by : Request → Rows → Rows
left_by (subscribe new) theirs = theirs
left_by (unsubscribe endpoint user) theirs = theirs
left_by (answered user endpoint delivered) theirs = theirs
left_by (answered user endpoint transient_err) theirs = theirs
left_by (answered user endpoint gone) theirs =
    retain (λ r. not (text_eq r.endpoint endpoint)) theirs

module _ (parse : Text → Option Url) where
  -- Whatever a user requests, and whatever a push service answers to what is sent to that user, the rows of
  -- the other users stay as they are, with one exception: when the service says that the endpoint which
  -- was posted to is gone, a row with this very endpoint is deleted whoever has it by then.
  pub others-serve :
      (r : Request) (rows : Rows)
      → others (acting_user r) (serve parse r rows) ≡ left_by r (others (acting_user r) rows)
  unfolding serve push_subscribe delete_for_user handle_delivery_outcome
  others-serve (subscribe new) rows =
      if_cases {A = Rows × Bool} (λ x. others new.user_id x.0 ≡ others new.user_id rows)
        (endpoint_is_safe parse new.endpoint) (upsert new rows, true) (rows, false)
        (λ _. others-upsert new rows) (λ _. refl)
  others-serve (unsubscribe endpoint user) rows =
      others-retain user (λ r. not (text_eq r.endpoint endpoint && owned user r)) rows
        (λ r. λ h. ground arith)
  others-serve (answered user endpoint delivered) rows = refl
  others-serve (answered user endpoint transient_err) rows = refl
  others-serve (answered user endpoint gone) rows = others-delete user endpoint rows
