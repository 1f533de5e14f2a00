-- ===== src/Push/Table/Kept.antt =====
-- Which devices of a user are kept when one is written.
use zeromux.Prelude.{ℕ, ◌≡◌, String, Bool, not, ◌&&◌, Text, text_eq, ltb, leb, count_if, take}
use zeromux.Push.Table.{Subscription, Rows, owned, has_endpoint}
use zeromux.Push.Table.Ranking.{is_newer}

-- The row is among the first of the list just if that many are not newer.
abbrev IsRanked : ℕ → Rows → Subscription → Type 0
IsRanked n xs r = has_endpoint (take n xs) r.endpoint ≡ ltb (count_if (λ x. is_newer x r) xs) n

-- The device is not the one just written, and five of its user are newer.
abbrev pub is_outranked : String → Text → Rows → Subscription → Bool
is_outranked user endpoint rows r =
    owned user r
    && (not (text_eq r.endpoint endpoint)
        && leb 5 (count_if (λ x. is_newer x r && owned user x) rows))
