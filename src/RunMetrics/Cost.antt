-- ===== src/RunMetrics/Cost.antt =====
-- The cost baseline of run_metrics.rs across a session's boundaries.
use zeromux.Prelude.{
  ℕ, ◌+◌, ◌≤◌, ◌≡◌, Bool, true, false, Option, none, some, List, [], ◌∷◌, arith, unwrap_or, is_some,
  ◌||◌, if◌then◌else◌,
}
use zeromux.RunMetrics.{diff_cost_at_boundary}

-- One boundary: the total that its event reports, and whether it records a metric.
pub record Boundary : Type 0 where
  pub total : Option ℕ
  pub recorded : Bool

-- The loop of the fan-out over its boundaries: `lifetime_cost_usd` sums what was recorded.
lifetime_from : Bool → Option ℕ → Bool → List Boundary → ℕ
lifetime_from resumed prev seen [] = 0
lifetime_from resumed prev seen (b ∷ bs) =
    let (delta, prev', seen') = diff_cost_at_boundary prev b.total seen resumed b.recorded in
    unwrap_or delta 0 + lifetime_from resumed prev' seen' bs

-- `prev_cost` starts at `Some(0.0)` in a new process and at `None` in a resumed one.
unfoldable pub lifetime_cost : Bool → List Boundary → ℕ
unfolding lifetime_from
lifetime_cost resumed bs = lifetime_from resumed (if resumed then none else some 0) false bs

counts : Boundary → Option ℕ
counts b = if b.recorded then b.total else none

-- The first and the last total of a recorded boundary.
pub first_total : List Boundary → ℕ
unfolding counts
first_total [] = 0
first_total (b ∷ bs) = unwrap_or (counts b) (first_total bs)

pub last_total : ℕ → List Boundary → ℕ
unfolding counts
last_total d [] = d
last_total d (b ∷ bs) = last_total (unwrap_or (counts b) d) bs

-- The recorded totals do not fall below `d`, nor below one another.
abbrev pub Rising : ℕ → List Boundary → Type 0
Rising d [] = Unit {0}
Rising d (b ∷ bs) = let t = if b.recorded then unwrap_or b.total d else d in (d ≤ t) × Rising t bs

-- From a known baseline the shares add up to the rise of the total.
lifetime_from-baseline :
    (resumed seen : Bool) (d : ℕ) (bs : List Boundary)
    → (resumed ≡ true → seen ≡ true)
    → Rising d bs
    → lifetime_from resumed (some d) seen bs + d ≡ last_total d bs
unfolding lifetime_from last_total diff_cost_at_boundary
lifetime_from-baseline resumed seen d [] h r = omega arith
lifetime_from-baseline resumed seen d (b ∷ bs) h r = ground (
  arith,
  lifetime_from-baseline resumed (seen || is_some b.total) (unwrap_or b.total d) bs,
  lifetime_from-baseline resumed seen d bs,
)

-- A resumed process takes its first recorded total as the baseline and counts nothing for it.
lifetime_from-resumed :
    (bs : List Boundary)
    → Rising 0 bs
    → lifetime_from true none false bs + first_total bs ≡ last_total 0 bs
unfolding lifetime_from last_total first_total diff_cost_at_boundary
lifetime_from-resumed [] r = omega arith
lifetime_from-resumed (b ∷ bs) r =
    ground
      (arith, lifetime_from-baseline true true (unwrap_or b.total 0) bs, lifetime_from-resumed bs)

-- Boundaries in any order, recorded or not, whose recorded totals do not fall: a session's lifetime
-- cost is the last total that a recorded boundary reported, less the first one if the process resumed
-- an older conversation.
pub lifetime_cost-telescopes :
    (resumed : Bool) (bs : List Boundary)
    → Rising 0 bs
    → lifetime_cost resumed bs + (if resumed then first_total bs else 0) ≡ last_total 0 bs
unfolding lifetime_cost
lifetime_cost-telescopes false bs r =
    omega (arith, lifetime_from-baseline false false 0 bs (λ e. cc) r)
lifetime_cost-telescopes true bs r = lifetime_from-resumed bs r
