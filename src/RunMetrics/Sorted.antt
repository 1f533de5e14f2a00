-- ===== src/RunMetrics/Sorted.antt =====
-- The sort and the ranks in a sorted list, for the statistics of run_metrics.rs.
use zeromux.Prelude.{
  ℕ, zero, suc, ◌+◌, ◌≤◌, ◌<◌, ◌≡◌, refl, ap, ◌∙◌, Bool, List, [], ◌∷◌, arith, ltb, leb, length,
  get_or, count_if, All,
}
use zeromux.RunMetrics.{insert_sorted, sort_unstable, sum}

abbrev pub IsSorted : List ℕ → Type 0
IsSorted [] = Unit
IsSorted (x ∷ xs) = All (λ y. x ≤ y) xs × IsSorted xs

pub All-weaken : (x y : ℕ) (xs : List ℕ) → x ≤ y → All (λ z. y ≤ z) xs → All (λ z. x ≤ z) xs
All-weaken x y [] h a = tt
All-weaken x y (z ∷ xs) h a = (omega arith, All-weaken x y xs h a.1)

pub All-insert_sorted :
    (a x : ℕ) (xs : List ℕ) → a ≤ x → All (λ z. a ≤ z) xs → All (λ z. a ≤ z) (insert_sorted x xs)
unfolding insert_sorted
All-insert_sorted a x [] h p = (h, tt)
All-insert_sorted a x (y ∷ ys) h p = ground (arith, All-insert_sorted a x ys h p.1)

pub insert_sorted-IsSorted : (x : ℕ) (xs : List ℕ) → IsSorted xs → IsSorted (insert_sorted x xs)
unfolding insert_sorted
insert_sorted-IsSorted x [] s = (tt, tt)
insert_sorted-IsSorted x (y ∷ ys) s =
    ground (arith, insert_sorted-IsSorted x ys s.1, All-weaken x y ys, All-insert_sorted y x ys)

pub sort_unstable-IsSorted : (xs : List ℕ) → IsSorted (sort_unstable xs)
unfolding sort_unstable
sort_unstable-IsSorted [] = tt
sort_unstable-IsSorted (x ∷ xs) = insert_sorted-IsSorted x _ (sort_unstable-IsSorted xs)

pub count_if-insert_sorted :
    (p : ℕ → Bool) (x : ℕ) (xs : List ℕ) → count_if p (insert_sorted x xs) ≡ count_if p (x ∷ xs)
unfolding insert_sorted
count_if-insert_sorted p x [] = refl
count_if-insert_sorted p x (y ∷ ys) = ground (arith, count_if-insert_sorted p x ys)

pub count_if-sort_unstable :
    (p : ℕ → Bool) (xs : List ℕ) → count_if p (sort_unstable xs) ≡ count_if p xs
unfolding sort_unstable
count_if-sort_unstable p [] = refl
count_if-sort_unstable p (x ∷ xs) =
    ground (arith, count_if-insert_sorted p x (sort_unstable xs), count_if-sort_unstable p xs)

pub length-insert_sorted : (x : ℕ) (xs : List ℕ) → length (insert_sorted x xs) ≡ suc (length xs)
unfolding insert_sorted
length-insert_sorted x [] = refl
length-insert_sorted x (y ∷ ys) = ground (arith, length-insert_sorted x ys)

pub length-sort_unstable : (xs : List ℕ) → length (sort_unstable xs) ≡ length xs
unfolding sort_unstable
length-sort_unstable [] = refl
length-sort_unstable (x ∷ xs) =
    length-insert_sorted x (sort_unstable xs) ∙ ap suc (length-sort_unstable xs)

pub le-get_or :
    (a : ℕ) (xs : List ℕ) (i : ℕ) → i < length xs → All (λ z. a ≤ z) xs → a ≤ get_or xs i 0
le-get_or a [] i h p = elim h [ ]
le-get_or a (x ∷ xs) zero h p = p.0
le-get_or a (x ∷ xs) (suc i) h p = le-get_or a xs i (omega arith) p.1

-- In a sorted list at least i + 1 elements are at most the i-th.
pub rank-le-count :
    (xs : List ℕ) (i : ℕ)
    → IsSorted xs
    → i < length xs
    → suc i ≤ count_if (λ d. leb d (get_or xs i 0)) xs
rank-le-count [] i s h = elim h [ ]
rank-le-count (x ∷ xs) zero s h = ground arith
rank-le-count (x ∷ xs) (suc i) s h =
    ground (arith, rank-le-count xs i s.1 (omega arith), le-get_or x xs i (omega arith) s.0)

pub none_below : (a : ℕ) (xs : List ℕ) → All (λ z. a ≤ z) xs → count_if (λ d. ltb d a) xs ≡ 0
none_below a [] p = refl
none_below a (x ∷ xs) p = ground (arith, none_below a xs p.1)

-- At most i elements are below the i-th.
pub count-le-rank :
    (xs : List ℕ) (i : ℕ) → IsSorted xs → count_if (λ d. ltb d (get_or xs i 0)) xs ≤ i
count-le-rank [] i s = omega arith
count-le-rank (x ∷ xs) zero s = ground (arith, none_below x xs s.0)
count-le-rank (x ∷ xs) (suc i) s = ground (arith, count-le-rank xs i s.1)

pub get_or_mono :
    (xs : List ℕ) (i j : ℕ) → IsSorted xs → i ≤ j → j < length xs → get_or xs i 0 ≤ get_or xs j 0
get_or_mono [] i j s h k = elim k [ ]
get_or_mono (x ∷ xs) zero zero s h k = omega arith
get_or_mono (x ∷ xs) zero (suc j) s h k = le-get_or x xs j (omega arith) s.0
get_or_mono (x ∷ xs) (suc i) zero s h k = absurd (omega arith)
get_or_mono (x ∷ xs) (suc i) (suc j) s h k = get_or_mono xs i j s.1 (omega arith) (omega arith)

pub sum-insert_sorted : (x : ℕ) (xs : List ℕ) → sum (insert_sorted x xs) ≡ x + sum xs
unfolding insert_sorted sum
sum-insert_sorted x [] = refl
sum-insert_sorted x (y ∷ ys) = ground (arith, sum-insert_sorted x ys)

pub sum-sort_unstable : (xs : List ℕ) → sum (sort_unstable xs) ≡ sum xs
unfolding sort_unstable sum
sum-sort_unstable [] = refl
sum-sort_unstable (x ∷ xs) =
    sum-insert_sorted x (sort_unstable xs) ∙ ap (λ (n : ℕ). x + n) (sum-sort_unstable xs)
