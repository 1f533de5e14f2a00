-- ===== src/Push/Table.antt =====
-- src/push.rs `PushStore` and `send_to_user`, and the handlers of src/web.rs over them. A statement of SQL
-- is a function on the rows, in the order of their insertion; a failed statement is not modelled.
pub mod Counts
pub mod Isolation
pub mod Sending
pub mod Bounded
pub mod Ranking
pub mod Kept
use zeromux.Prelude.{
  ℕ, String, str_eq, Bool, true, false, not, ◌&&◌, ◌||◌, Option, none, some, List, [], ◌∷◌, ◌++◌,
  map, Text, text_eq, text_lt, ltb, ◌==◌, retain, any, take, if◌then◌else◌,
}
use zeromux.Push.Endpoint.{Url, endpoint_is_safe}

pub record Subscription : Type 0 where
  pub endpoint : Text
  pub user_id : String
  pub p256dh : String
  pub auth : String
  pub created_ms : ℕ
  pub lvl_important : Bool
  pub lvl_routine : Bool

abbrev pub Rows : Type 0
Rows = List Subscription

abbrev max_subs_per_user : ℕ
max_subs_per_user = 5

abbrev pub owned : String → Subscription → Bool
owned user r = str_eq r.user_id user

abbrev pub has_endpoint : Rows → Text → Bool
has_endpoint rows endpoint = any (λ r. text_eq r.endpoint endpoint) rows

-- DO UPDATE SET, for a row of the same user.
overwrite : Subscription → Subscription → Subscription
overwrite new r =
    if text_eq r.endpoint new.endpoint && owned new.user_id r
    then record r {
      p256dh = new.p256dh;
      auth = new.auth;
      created_ms = new.created_ms;
      lvl_important = new.lvl_important;
      lvl_routine = new.lvl_routine;
    }
    else r

-- INSERT … ON CONFLICT(endpoint) DO UPDATE … WHERE user_id = excluded.user_id.
unfoldable pub put : Subscription → Rows → Rows
unfolding overwrite
put new rows = if has_endpoint rows new.endpoint then map (overwrite new) rows else rows ++ new ∷ []

-- ORDER BY created_ms DESC, endpoint DESC.
unfoldable pub ahead : Subscription → Subscription → Bool
ahead a b =
    ltb b.created_ms a.created_ms || a.created_ms == b.created_ms && text_lt b.endpoint a.endpoint

unfoldable pub insert_row : Subscription → Rows → Rows
unfolding ahead
insert_row r [] = r ∷ []
insert_row r (x ∷ xs) = let rest = insert_row r xs in if ahead x r then x ∷ rest else r ∷ x ∷ xs

unfoldable pub order_rows : Rows → Rows
unfolding insert_row
order_rows [] = []
order_rows (r ∷ rs) = insert_row r (order_rows rs)

unfoldable pub newest : String → Rows → Rows
unfolding order_rows
newest user rows = take max_subs_per_user (order_rows (retain (owned user) rows))

abbrev pub is_stale : String → Text → Rows → Subscription → Bool
is_stale user endpoint kept r =
    owned user r && (not (text_eq r.endpoint endpoint) && not (has_endpoint kept r.endpoint))

unfoldable pub prune : String → Text → Rows → Rows
unfolding newest
prune user endpoint rows = retain (λ r. not (is_stale user endpoint (newest user rows) r)) rows

unfoldable pub upsert : Subscription → Rows → Rows
unfolding put prune
upsert new rows = prune new.user_id new.endpoint (put new rows)

unfoldable pub list_for_user : String → Rows → Rows
list_for_user user = retain (owned user)

unfoldable pub delete : Text → Rows → Rows
delete endpoint = retain (λ r. not (text_eq r.endpoint endpoint))

unfoldable pub delete_for_user : Text → String → Rows → Rows
delete_for_user endpoint user = retain (λ r. not (text_eq r.endpoint endpoint && owned user r))

unfoldable pub kind_allowed_by_levels : String → Bool → Bool → Bool
kind_allowed_by_levels kind lvl_important lvl_routine =
    if str_eq kind "test"
    then true
    else if str_eq kind "turn_done" || str_eq kind "run_done" || str_eq kind "term_ended"
    then lvl_routine
    else lvl_important

pub data DeliveryOutcome : Type 0 where
  delivered gone transient_err : DeliveryOutcome

unfoldable pub handle_delivery_outcome : Text → DeliveryOutcome → Rows → Rows
unfolding delete
handle_delivery_outcome endpoint gone rows = delete endpoint rows
handle_delivery_outcome endpoint delivered rows = rows
handle_delivery_outcome endpoint transient_err rows = rows

-- What the requests of users and the deliveries to them do to the table. A delivery is awaited with no
-- lock held, so its outcome is a step of its own.
pub data Request : Type 0 where
  subscribe : Subscription → Request
  unsubscribe : Text → String → Request
  answered : String → Text → DeliveryOutcome → Request

abbrev pub acting_user : Request → String
acting_user (subscribe new) = new.user_id
acting_user (unsubscribe endpoint user) = user
acting_user (answered user endpoint outcome) = user

module _ (parse : Text → Option Url) where
  -- web.rs: an endpoint that is not safe is refused, the levels default to important only.
  unfoldable pub push_subscribe : Subscription → Rows → Rows × Bool
  unfolding upsert
  push_subscribe new rows =
      if endpoint_is_safe parse new.endpoint then (upsert new rows, true) else (rows, false)

  unfoldable pub serve : Request → Rows → Rows
  unfolding push_subscribe delete_for_user handle_delivery_outcome
  serve (subscribe new) rows = (push_subscribe new rows).0
  serve (unsubscribe endpoint user) rows = delete_for_user endpoint user rows
  serve (answered user endpoint outcome) rows = handle_delivery_outcome endpoint outcome rows

  unfoldable pub serve_all : List Request → Rows → Rows
  unfolding serve
  serve_all [] rows = rows
  serve_all (r ∷ rs) rows = serve_all rs (serve r rows)

  abbrev pub is_target : String → Subscription → Bool
  is_target kind sub =
      kind_allowed_by_levels kind sub.lvl_important sub.lvl_routine
      && endpoint_is_safe parse sub.endpoint

  -- One POST for each target, in order. While it is awaited the requests `meanwhile` are served; a
  -- subscription that is gone is deleted then.
  unfoldable pub deliver :
      String
      → (Subscription → DeliveryOutcome)
      → (Subscription → List Request)
      → Rows
      → Rows
      → Rows × Rows
  unfolding serve_all handle_delivery_outcome
  deliver kind post meanwhile [] rows = (rows, [])
  deliver kind post meanwhile (sub ∷ subs) rows =
      let waited = serve_all (meanwhile sub) rows in
      let after = handle_delivery_outcome sub.endpoint (post sub) waited in
      let (skipped, skipped_posts) = deliver kind post meanwhile subs rows in
      let (sent, sent_posts) = deliver kind post meanwhile subs after in
      if is_target kind sub then (sent, sub ∷ sent_posts) else (skipped, skipped_posts)

  -- The table after `send_to_user`, and the subscriptions that were posted to.
  unfoldable pub send_to_user :
      String
      → String
      → (Subscription → DeliveryOutcome)
      → (Subscription → List Request)
      → Rows
      → Rows × Rows
  unfolding deliver list_for_user
  send_to_user user kind post meanwhile rows =
      deliver kind post meanwhile (list_for_user user rows) rows
