-- ===== src/Push/Table/Sending.antt =====
-- A notification to a user is a sequence of steps, with the requests that are served meanwhile.
use zeromux.Prelude.{
  ◌≡◌, refl, String, Option, List, [], ◌∷◌, ◌++◌, Text, Bool-cases, inl, inr, if◌then◌else◌,
}
use zeromux.Push.Endpoint.{Url}
use zeromux.Push.Table.{
  Subscription, Rows, DeliveryOutcome, handle_delivery_outcome, Request, answered, is_target,
  deliver, serve, serve_all, list_for_user, send_to_user,
}

module _ (parse : Text → Option Url) where
  serve_all-append :
      (rs ss : List Request) (rows : Rows)
      → serve_all parse (rs ++ ss) rows ≡ serve_all parse ss (serve_all parse rs rows)
  unfolding serve_all
  serve_all-append [] ss rows = refl
  serve_all-append (r ∷ rs) ss rows = serve_all-append rs ss (serve parse r rows)

  -- The steps of a notification, in order.
  abbrev pub steps_of :
      String
      → String
      → (Subscription → DeliveryOutcome)
      → (Subscription → List Request)
      → Rows
      → List Request
  steps_of user kind post meanwhile [] = []
  steps_of user kind post meanwhile (sub ∷ subs) =
      let rest = steps_of user kind post meanwhile subs in
      if is_target parse kind sub
      then meanwhile sub ++ answered user sub.endpoint (post sub) ∷ rest
      else rest

  deliver-serve_all :
      (user kind : String) (post : Subscription → DeliveryOutcome)
      (meanwhile : Subscription → List Request) (subs rows : Rows)
      → (deliver parse kind post meanwhile subs rows).0
        ≡ serve_all parse (steps_of user kind post meanwhile subs) rows
  unfolding deliver serve_all serve
  deliver-serve_all user kind post meanwhile [] rows = refl
  deliver-serve_all user kind post meanwhile (s ∷ ss) rows =
      let after =
        handle_delivery_outcome s.endpoint (post s) (serve_all parse (meanwhile s) rows) in
      elim (Bool-cases (is_target parse kind s)) [
        | inl e ↦
            rw
              (
                e,
                serve_all-append (meanwhile s)
                    (answered user s.endpoint (post s) ∷ steps_of user kind post meanwhile ss) rows,
              )
              (deliver-serve_all user kind post meanwhile ss after)
        | inr e ↦ rw e (deliver-serve_all user kind post meanwhile ss rows)
      ]

  -- What holds after any requests and answers holds after a notification.
  pub send_to_user-serve_all :
      (user kind : String) (post : Subscription → DeliveryOutcome)
      (meanwhile : Subscription → List Request) (rows : Rows)
      → (send_to_user parse user kind post meanwhile rows).0
        ≡ serve_all parse (steps_of user kind post meanwhile (list_for_user user rows)) rows
  unfolding send_to_user
  send_to_user-serve_all user kind post meanwhile rows =
      deliver-serve_all user kind post meanwhile (list_for_user user rows) rows
