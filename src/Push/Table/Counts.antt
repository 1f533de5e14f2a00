-- ===== src/Push/Table/Counts.antt =====
-- Counts over the rows of `push_subscriptions`, whose endpoints are distinct.
use zeromux.Prelude.{
  ℕ, ◌+◌, ◌≤◌, ◌≡◌, refl, Bool, true, false, ◌&&◌, ◌||◌, List, [], ◌∷◌, ◌++◌, map, Text, text_eq,
  text_eq→≡, arith, retain, count_if, length, Bool-cases, inl, inr, take, suc, zero, ap, ◌∙◌, subst,
  text_eq_refl, if_cases,
}
use zeromux.Push.Table.{Subscription, Rows, has_endpoint, overwrite, put}

-- PRIMARY KEY (endpoint).
abbrev pub Distinct : Rows → Type 0
Distinct [] = Unit
Distinct (r ∷ rs) = (has_endpoint rs r.endpoint ≡ false) × Distinct rs

pub has_endpoint-retain :
    (p : Subscription → Bool) (rows : Rows) (e : Text)
    → has_endpoint rows e ≡ false
    → has_endpoint (retain p rows) e ≡ false
has_endpoint-retain p [] e h = h
has_endpoint-retain p (r ∷ rs) e h = ground (arith, has_endpoint-retain p rs e)

pub Distinct-retain :
    (p : Subscription → Bool) (rows : Rows) → Distinct rows → Distinct (retain p rows)
Distinct-retain p [] d = d
Distinct-retain p (r ∷ rs) (n, d) =
    ground (arith, has_endpoint-retain p rs r.endpoint n, Distinct-retain p rs d)

has_endpoint-append :
    (rows : Rows) (new : Subscription) (e : Text)
    → has_endpoint (rows ++ new ∷ []) e ≡ (has_endpoint rows e || text_eq new.endpoint e)
has_endpoint-append [] new e = ground arith
has_endpoint-append (r ∷ rs) new e = ground (arith, has_endpoint-append rs new e)

module _ {A : Type 0} where
  pub count_if-le :
      (p q : A → Bool) (xs : List A)
      → ((x : A) → p x ≡ true → q x ≡ true)
      → count_if p xs ≤ count_if q xs
  count_if-le p q [] h = omega arith
  count_if-le p q (x ∷ xs) h = ground (arith, count_if-le p q xs h, h x)

  pub count_if-or :
      (p q : A → Bool) (xs : List A) → count_if (λ x. p x || q x) xs ≤ count_if p xs + count_if q xs
  count_if-or p q [] = omega arith
  count_if-or p q (x ∷ xs) = ground (arith, count_if-or p q xs)

  pub count_if-retain :
      (p q : A → Bool) (xs : List A) → count_if p (retain q xs) ≡ count_if (λ x. p x && q x) xs
  count_if-retain p q [] = omega arith
  count_if-retain p q (x ∷ xs) = ground (arith, count_if-retain p q xs)

  pub length-take-le : (n : ℕ) (xs : List A) → length (take n xs) ≤ n
  length-take-le zero xs = omega arith
  length-take-le (suc n) [] = omega arith
  length-take-le (suc n) (x ∷ xs) = omega (arith, length-take-le n xs)

pub text_eq-sym : (a b : Text) → text_eq a b ≡ true → text_eq b a ≡ true
text_eq-sym a b h = ap (λ x. text_eq b x) (text_eq→≡ a b h) ∙ text_eq_refl b

count_absent :
    (rows : Rows) (e : Text)
    → has_endpoint rows e ≡ false
    → count_if (λ r. text_eq r.endpoint e) rows ≡ 0
count_absent [] e h = refl
count_absent (r ∷ rs) e h = ground (arith, count_absent rs e)

-- One row for an endpoint at most.
pub count_endpoint-le :
    (rows : Rows) (e : Text) → Distinct rows → count_if (λ r. text_eq r.endpoint e) rows ≤ 1
count_endpoint-le [] e d = omega arith
count_endpoint-le (r ∷ rs) e (n, d) = elim (Bool-cases (text_eq r.endpoint e)) [
  | inl h ↦
      let absent = subst (λ x. has_endpoint rs x ≡ false) (text_eq→≡ r.endpoint e h) n in
      ground (arith, count_absent rs e absent)
  | inr h ↦ ground (arith, count_endpoint-le rs e d)
]

count_if-false : (rows : Rows) → count_if (λ r. false) rows ≡ 0
count_if-false [] = refl
count_if-false (r ∷ rs) = count_if-false rs

-- No more rows than there are endpoints to choose from.
pub count_listed-le :
    (listed rows : Rows)
    → Distinct rows
    → count_if (λ r. has_endpoint listed r.endpoint) rows ≤ length listed
count_listed-le [] rows d = omega (arith, count_if-false rows)
count_listed-le (l ∷ ls) rows d = omega (
  arith,
  count_if-or (λ r. text_eq l.endpoint r.endpoint) (λ r. has_endpoint ls r.endpoint) rows,
  count_if-le (λ r. text_eq l.endpoint r.endpoint) (λ r. text_eq r.endpoint l.endpoint) rows
      (λ r. text_eq-sym l.endpoint r.endpoint),
  count_endpoint-le rows l.endpoint d,
  count_listed-le ls rows d,
)

has_endpoint-overwrite :
    (new : Subscription) (rows : Rows) (e : Text)
    → has_endpoint (map (overwrite new) rows) e ≡ has_endpoint rows e
unfolding overwrite
has_endpoint-overwrite new [] e = refl
has_endpoint-overwrite new (r ∷ rs) e = ground (arith, has_endpoint-overwrite new rs e)

overwrite-endpoint : (new r : Subscription) → (overwrite new r).endpoint ≡ r.endpoint
unfolding overwrite
overwrite-endpoint new r = ground arith

Distinct-overwrite :
    (new : Subscription) (rows : Rows) → Distinct rows → Distinct (map (overwrite new) rows)
Distinct-overwrite new [] d = d
Distinct-overwrite new (r ∷ rs) (n, d) = (
  has_endpoint-overwrite new rs (overwrite new r).endpoint
      ∙ ap (has_endpoint rs) (overwrite-endpoint new r)
      ∙ n,
  Distinct-overwrite new rs d,
)

Distinct-append :
    (rows : Rows) (new : Subscription)
    → has_endpoint rows new.endpoint ≡ false
    → Distinct rows
    → Distinct (rows ++ new ∷ [])
Distinct-append [] new h d = (refl, tt)
Distinct-append (r ∷ rs) new h (n, d) = (
  has_endpoint-append rs new r.endpoint ∙ ground (arith, text_eq-sym new.endpoint r.endpoint, n),
  Distinct-append rs new (ground arith) d,
)

pub Distinct-put : (new : Subscription) (rows : Rows) → Distinct rows → Distinct (put new rows)
unfolding put
Distinct-put new rows d =
    if_cases Distinct (has_endpoint rows new.endpoint) (map (overwrite new) rows) (rows ++ new ∷ [])
      (λ _. Distinct-overwrite new rows d) (λ h. Distinct-append rows new h d)
