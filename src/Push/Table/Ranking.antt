-- ===== src/Push/Table/Ranking.antt =====
-- The order of a user's devices by their age, which `order_rows` gives.
use zeromux.Prelude.{
  ◌≡◌, refl, ap, ◌∙◌, Bool, true, false, ◌&&◌, ◌||◌, [], ◌∷◌, Text, text_eq, text_lt, ltb, ◌==◌,
  arith, count_if, All, if_cases,
}
use zeromux.Push.Table.{Subscription, Rows, has_endpoint, ahead, insert_row, order_rows}
use zeromux.Push.Table.Counts.{Distinct, text_eq-sym}

text_lt_trans : (a b c : Text) → text_lt a b ≡ true → text_lt b c ≡ true → text_lt a c ≡ true
text_lt_trans a b [] h k = cc
text_lt_trans a [] (z ∷ c) h k = cc
text_lt_trans [] (y ∷ b) (z ∷ c) h k = refl
text_lt_trans (x ∷ a) (y ∷ b) (z ∷ c) h k = ground (arith, text_lt_trans a b c)

text_lt_irrefl : (a : Text) → text_lt a a ≡ false
text_lt_irrefl [] = refl
text_lt_irrefl (x ∷ a) = ground (arith, text_lt_irrefl a)

text_lt_total : (a b : Text) → text_eq a b ≡ false → text_lt a b ≡ false → text_lt b a ≡ true
text_lt_total [] [] h k = cc
text_lt_total [] (y ∷ b) h k = cc
text_lt_total (x ∷ a) [] h k = refl
text_lt_total (x ∷ a) (y ∷ b) h k = ground (arith, text_lt_total a b)

-- The row was written later, or at the same time with an endpoint that is later in the order of texts.
abbrev pub is_newer : Subscription → Subscription → Bool
is_newer a b =
    ltb b.created_ms a.created_ms || a.created_ms == b.created_ms && text_lt b.endpoint a.endpoint

is_newer_trans :
    (a b c : Subscription) → is_newer a b ≡ true → is_newer b c ≡ true → is_newer a c ≡ true
is_newer_trans a b c h k = ground (arith, text_lt_trans c.endpoint b.endpoint a.endpoint)

is_newer_total :
    (a b : Subscription)
    → text_eq a.endpoint b.endpoint ≡ false
    → is_newer a b ≡ false
    → is_newer b a ≡ true
is_newer_total a b d h =
    ground (arith, text_lt_total b.endpoint a.endpoint, text_lt_total a.endpoint b.endpoint)

pub is_newer_irrefl : (a : Subscription) → is_newer a a ≡ false
is_newer_irrefl a = ground (arith, text_lt_irrefl a.endpoint)

is_newer_asym : (a b : Subscription) → is_newer a b ≡ true → is_newer b a ≡ false
is_newer_asym a b h =
    ground (arith, text_lt_trans a.endpoint b.endpoint a.endpoint, text_lt_irrefl a.endpoint)

-- Newest first.
abbrev pub IsOrdered : Rows → Type 0
IsOrdered [] = Unit
IsOrdered (x ∷ xs) = All (λ y. is_newer x y ≡ true) xs × IsOrdered xs

All-insert :
    (P : Subscription → Type 0) (r : Subscription) (xs : Rows)
    → P r
    → All P xs
    → All P (insert_row r xs)
unfolding insert_row ahead
All-insert P r [] p ps = (p, tt)
All-insert P r (x ∷ xs) p (q, qs) =
    if_cases (All P) (is_newer x r) (x ∷ insert_row r xs) (r ∷ x ∷ xs)
      (λ _. (q, All-insert P r xs p qs)) (λ _. (p, (q, qs)))

is_newer-All :
    (r x : Subscription) (xs : Rows)
    → is_newer r x ≡ true
    → All (λ y. is_newer x y ≡ true) xs
    → All (λ y. is_newer r y ≡ true) xs
is_newer-All r x [] h hs = tt
is_newer-All r x (y ∷ ys) h (k, ks) = (is_newer_trans r x y h k, is_newer-All r x ys h ks)

insert_row-IsOrdered :
    (r : Subscription) (xs : Rows)
    → has_endpoint xs r.endpoint ≡ false
    → IsOrdered xs
    → IsOrdered (insert_row r xs)
unfolding insert_row ahead
insert_row-IsOrdered r [] d o = (tt, tt)
insert_row-IsOrdered r (x ∷ xs) d (h, o) =
    if_cases IsOrdered (is_newer x r) (x ∷ insert_row r xs) (r ∷ x ∷ xs)
      (λ e. (
        All-insert (λ y. is_newer x y ≡ true) r xs e h,
        insert_row-IsOrdered r xs (ground (arith, d)) o,
      ))
      (λ e.
        let newer = is_newer_total x r (ground (arith, d)) e in
        ((newer, is_newer-All r x xs newer h), (h, o)))

has_endpoint-insert :
    (r : Subscription) (xs : Rows) (e : Text)
    → has_endpoint (insert_row r xs) e ≡ (text_eq r.endpoint e || has_endpoint xs e)
unfolding insert_row
has_endpoint-insert r [] e = refl
has_endpoint-insert r (x ∷ xs) e = ground (arith, has_endpoint-insert r xs e)

has_endpoint-order : (xs : Rows) (e : Text) → has_endpoint (order_rows xs) e ≡ has_endpoint xs e
unfolding order_rows
has_endpoint-order [] e = refl
has_endpoint-order (x ∷ xs) e =
    has_endpoint-insert x (order_rows xs) e
    ∙ ap (λ b. text_eq x.endpoint e || b) (has_endpoint-order xs e)

pub order_rows-IsOrdered : (xs : Rows) → Distinct xs → IsOrdered (order_rows xs)
unfolding order_rows
order_rows-IsOrdered [] d = tt
order_rows-IsOrdered (x ∷ xs) (n, d) =
    insert_row-IsOrdered x (order_rows xs) (has_endpoint-order xs x.endpoint ∙ n)
      (order_rows-IsOrdered xs d)

count_if-insert :
    (p : Subscription → Bool) (r : Subscription) (xs : Rows)
    → count_if p (insert_row r xs) ≡ count_if p (r ∷ xs)
unfolding insert_row
count_if-insert p r [] = refl
count_if-insert p r (x ∷ xs) = ground (arith, count_if-insert p r xs)

pub count_if-order :
    (p : Subscription → Bool) (xs : Rows) → count_if p (order_rows xs) ≡ count_if p xs
unfolding order_rows
count_if-order p [] = refl
count_if-order p (x ∷ xs) = ground (arith, count_if-insert p x (order_rows xs), count_if-order p xs)

Distinct-insert :
    (r : Subscription) (xs : Rows)
    → has_endpoint xs r.endpoint ≡ false
    → Distinct xs
    → Distinct (insert_row r xs)
unfolding insert_row ahead
Distinct-insert r [] n d = (refl, tt)
Distinct-insert r (x ∷ xs) n (m, d) =
    if_cases Distinct (is_newer x r) (x ∷ insert_row r xs) (r ∷ x ∷ xs)
      (λ _. (
        has_endpoint-insert r xs x.endpoint
            ∙ ground (arith, n, m, text_eq-sym r.endpoint x.endpoint),
        Distinct-insert r xs (ground (arith, n)) d,
      ))
      (λ _. (n, (m, d)))

pub Distinct-order : (xs : Rows) → Distinct xs → Distinct (order_rows xs)
unfolding order_rows
Distinct-order [] d = tt
Distinct-order (x ∷ xs) (n, d) =
    Distinct-insert x (order_rows xs) (has_endpoint-order xs x.endpoint ∙ n) (Distinct-order xs d)

pub none_newer :
    (x : Subscription) (xs : Rows)
    → All (λ y. is_newer x y ≡ true) xs
    → count_if (λ y. is_newer y x) xs ≡ 0
none_newer x [] h = refl
none_newer x (y ∷ ys) (h, hs) = ground (arith, is_newer_asym x y h, none_newer x ys hs)
