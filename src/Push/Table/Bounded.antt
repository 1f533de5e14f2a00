-- ===== src/Push/Table/Bounded.antt =====
-- How many devices of a user the table holds.
use zeromux.Prelude.{
  ◌≤◌, ◌≡◌, refl, ap, sym, String, str_eq, Bool, true, false, not, ◌&&◌, ◌||◌, Option, List, [],
  ◌∷◌, Text, text_eq, arith, retain, count_if, length, if_cases, subst, Bool-cases, inl, inr,
  eq_iff,
}
use zeromux.Push.Endpoint.{Url, endpoint_is_safe}
use zeromux.Push.Table.{
  Subscription, Rows, owned, has_endpoint, put, is_stale, newest, order_rows, prune, upsert, delete,
  delete_for_user, DeliveryOutcome, delivered, gone, transient_err, handle_delivery_outcome,
  push_subscribe, Request, subscribe, unsubscribe, answered, serve, serve_all,
}
use zeromux.Push.Table.Counts.{
  Distinct, Distinct-retain, Distinct-put, count_if-le, count_if-or, count_if-retain,
  length-take-le, count_endpoint-le, count_listed-le,
}
use zeromux.Push.Table.Isolation.{others, others-upsert}

length-newest : (user : String) (rows : Rows) → length (newest user rows) ≤ 5
unfolding newest
length-newest user rows = length-take-le 5 (order_rows (retain (owned user) rows))

-- No more are left than are kept for their age, and the one just written.
count-prune :
    (user : String) (e : Text) (rows : Rows)
    → Distinct rows
    → count_if (owned user) (prune user e rows) ≤ 6
unfolding prune
count-prune user e rows d =
    let kept = newest user rows in
    omega (
      arith,
      count_if-retain (owned user) (λ r. not (is_stale user e kept r)) rows,
      count_if-le (λ r. owned user r && not (is_stale user e kept r))
          (λ r. text_eq r.endpoint e || has_endpoint kept r.endpoint) rows (λ r. λ h. ground arith),
      count_if-or (λ r. text_eq r.endpoint e) (λ r. has_endpoint kept r.endpoint) rows,
      count_endpoint-le rows e d,
      count_listed-le kept rows d,
      length-newest user rows,
    )

Distinct-upsert : (new : Subscription) (rows : Rows) → Distinct rows → Distinct (upsert new rows)
unfolding upsert prune
Distinct-upsert new rows d =
    let kept = put new rows in
    Distinct-retain (λ r. not (is_stale new.user_id new.endpoint (newest new.user_id kept) r)) kept
      (Distinct-put new rows d)

count_if-sub :
    (user : String) (p : Subscription → Bool) (rows : Rows)
    → count_if (owned user) (retain p rows) ≤ count_if (owned user) rows
count_if-sub user p [] = omega arith
count_if-sub user p (r ∷ rs) = ground (arith, count_if-sub user p rs)

-- Rows are only dropped.
record IsPruned (before after : Rows) : Type 0 where
  still_distinct : Distinct before → Distinct after
  no_more : (user : String) → count_if (owned user) after ≤ count_if (owned user) before

retain-IsPruned : (p : Subscription → Bool) (rows : Rows) → IsPruned rows (retain p rows)
retain-IsPruned p rows = record {
  still_distinct = Distinct-retain p rows;
  no_more = λ user. count_if-sub user p rows;
}

IsPruned-refl : (rows : Rows) → IsPruned rows rows
IsPruned-refl rows = record { still_distinct = λ d. d; no_more = λ user. omega arith }

IsPruned-trans : (a b c : Rows) → IsPruned a b → IsPruned b c → IsPruned a c
IsPruned-trans a b c p q = record {
  still_distinct = λ d. q.still_distinct (p.still_distinct d);
  no_more = λ user. omega (arith, p.no_more user, q.no_more user);
}

handled-IsPruned :
    (endpoint : Text) (o : DeliveryOutcome) (rows : Rows)
    → IsPruned rows (handle_delivery_outcome endpoint o rows)
unfolding handle_delivery_outcome delete
handled-IsPruned endpoint gone rows = retain-IsPruned (λ r. not (text_eq r.endpoint endpoint)) rows
handled-IsPruned endpoint delivered rows = IsPruned-refl rows
handled-IsPruned endpoint transient_err rows = IsPruned-refl rows

-- A table that the program can reach.
pub record IsTable (rows : Rows) : Type 0 where
  pub distinct : Distinct rows
  pub capped : (user : String) → count_if (owned user) rows ≤ 6

IsPruned-IsTable : (a b : Rows) → IsPruned a b → IsTable a → IsTable b
IsPruned-IsTable a b p t = record {
  distinct = p.still_distinct t.distinct;
  capped = λ user. omega (arith, p.no_more user, t.capped user);
}

-- A row of one user is no row of another.
count-others :
    (user v : String) (rows : Rows)
    → str_eq user v ≡ false
    → count_if (owned v) (others user rows) ≡ count_if (owned v) rows
count-others user v [] h = refl
count-others user v (r ∷ rs) h = elim (Bool-cases (owned user r)) [
  | inl e ↦
      let differs : owned v r ≡ false =
        subst (λ x. str_eq x v ≡ false) (sym ((eq_iff r.user_id user).0 e)) h in
      rw (e, differs) (count-others user v rs h)
  | inr e ↦ ground (arith, count-others user v rs h)
]

upsert-IsTable :
    (new : Subscription) (rows : Rows)
    → others new.user_id (upsert new rows) ≡ others new.user_id rows
    → IsTable rows
    → IsTable (upsert new rows)
unfolding upsert
upsert-IsTable new rows same t = record {
  distinct = Distinct-upsert new rows t.distinct;
  capped = λ user. elim (Bool-cases (str_eq new.user_id user)) [
    | inl e ↦
        subst (λ u. count_if (owned u) (upsert new rows) ≤ 6) ((eq_iff new.user_id user).0 e)
          (count-prune new.user_id new.endpoint (put new rows) (Distinct-put new rows t.distinct))
    | inr e ↦ omega (
      arith,
      count-others new.user_id user (upsert new rows) e,
      ap (count_if (owned user)) same,
      count-others new.user_id user rows e,
      t.capped user,
    )
  ];
}

module _ (parse : Text → Option Url) where
  serve-IsTable : (r : Request) (rows : Rows) → IsTable rows → IsTable (serve parse r rows)
  unfolding serve push_subscribe delete_for_user
  serve-IsTable (subscribe new) rows t =
      if_cases {A = Rows × Bool} (λ x. IsTable x.0) (endpoint_is_safe parse new.endpoint)
        (upsert new rows, true) (rows, false)
        (λ _. upsert-IsTable new rows (others-upsert new rows) t) (λ _. t)
  serve-IsTable (unsubscribe endpoint user) rows t =
      IsPruned-IsTable rows (delete_for_user endpoint user rows)
        (retain-IsPruned (λ r. not (text_eq r.endpoint endpoint && owned user r)) rows) t
  serve-IsTable (answered user endpoint outcome) rows t =
      IsPruned-IsTable rows (handle_delivery_outcome endpoint outcome rows)
        (handled-IsPruned endpoint outcome rows) t

  serve_all-IsTable :
      (rs : List Request) (rows : Rows) → IsTable rows → IsTable (serve_all parse rs rows)
  unfolding serve_all
  serve_all-IsTable [] rows t = t
  serve_all-IsTable (r ∷ rs) rows t =
      serve_all-IsTable rs (serve parse r rows) (serve-IsTable r rows t)

  -- After any requests of any users and any notifications, from an empty table: no endpoint stands in
  -- two rows, and no user has more than six.
  pub subscriptions-IsTable : (rs : List Request) → IsTable (serve_all parse rs [])
  subscriptions-IsTable rs =
      serve_all-IsTable rs [] (record { distinct = tt; capped = λ user. omega arith })
