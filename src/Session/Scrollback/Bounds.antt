-- ===== src/Session/Scrollback/Bounds.antt =====
-- The replay buffer's byte cap, and what eviction leaves.
use zeromux.Prelude.{
  ℕ, ◌+◌, ◌-◌, ◌<◌, ◌≡◌, refl, ap, true, false, not, ◌&&◌, ◌||◌, List, [], ◌∷◌, ◌++◌, Text, arith,
  byte_len, ltb, leb, ◌==◌, is_empty, length, if_cases,
}
use zeromux.Session.{Session}
use zeromux.Session.Scrollback.{scrollback_max_bytes, evict, push_frame}

abbrev pub total_bytes : List Text → ℕ
total_bytes [] = 0
total_bytes (f ∷ fs) = byte_len f + total_bytes fs

total_bytes-append : (xs ys : List Text) → total_bytes (xs ++ ys) ≡ total_bytes xs + total_bytes ys
total_bytes-append [] ys = omega arith
total_bytes-append (x ∷ xs) ys = omega (arith, total_bytes-append xs ys)

-- `xs` is the end of `all`: the newest frames, with no gap.
abbrev pub IsSuffix : List Text → List Text → Type 0
IsSuffix xs all = (evicted : List Text) × (evicted ++ xs ≡ all)

-- The counter is right, and over the cap there is one frame alone.
abbrev pub IsBounded : List Text → ℕ → Type 0
IsBounded frames bytes =
    (bytes ≡ total_bytes frames) × ((leb bytes scrollback_max_bytes || length frames == 1) ≡ true)

-- The last of the frames that are gone would not have fitted: with it the bytes exceed the cap.
abbrev pub IsNeeded : ℕ → List Text → List Text → Type 0
IsNeeded cap [] kept = Unit
IsNeeded cap (f ∷ []) kept = cap < byte_len f + total_bytes kept
IsNeeded cap (f ∷ g ∷ gone) kept = IsNeeded cap (g ∷ gone) kept

-- The frames that are kept are the end of all, and no more than had to go are gone.
abbrev pub IsTrimmed : List Text → List Text → Type 0
IsTrimmed kept all =
    (gone : List Text) × (gone ++ kept ≡ all)
    × IsNeeded scrollback_max_bytes gone kept
    × (is_empty kept ≡ is_empty all)

IsNeeded-cons :
    (cap : ℕ) (f : Text) (gone kept fs : List Text)
    → cap < byte_len f + total_bytes fs
    → gone ++ kept ≡ fs
    → IsNeeded cap gone kept
    → IsNeeded cap (f ∷ gone) kept
IsNeeded-cons cap f [] kept fs h whole n = omega (arith, h, ap total_bytes whole)
IsNeeded-cons cap f (g ∷ gone) kept fs h whole n = n

-- More frames are kept and more are gone later.
pub IsNeeded-later :
    (cap : ℕ) (a b ys zs gs : List Text)
    → IsNeeded cap a ys
    → b ++ zs ≡ ys ++ gs
    → IsNeeded cap b zs
    → IsNeeded cap (a ++ b) zs
IsNeeded-later cap [] b ys zs gs h whole n = n
IsNeeded-later cap (f ∷ []) [] ys zs gs h whole n =
    omega (arith, h, ap total_bytes whole, total_bytes-append ys gs)
IsNeeded-later cap (f ∷ []) (g ∷ b) ys zs gs h whole n = n
IsNeeded-later cap (f ∷ g ∷ a) b ys zs gs h whole n =
    IsNeeded-later cap (g ∷ a) b ys zs gs h whole n

pub is_empty-append : (xs ys : List Text) → is_empty (xs ++ ys) ≡ (is_empty xs && is_empty ys)
is_empty-append [] ys = refl
is_empty-append (x ∷ xs) ys = refl

record Evicted (limit : ℕ) (xs : List Text) (e : List Text × ℕ) : Type 0 where
  gone : List Text
  whole : gone ++ e.0 ≡ xs
  needed : IsNeeded limit gone e.0
  counted : e.1 ≡ total_bytes e.0
  capped : (leb e.1 limit || length e.0 == 1) ≡ true
  same_emptiness : is_empty e.0 ≡ is_empty xs

-- Where the loop stops, the cap holds or one frame is left.
stop_capped :
    (limit bytes : ℕ) (f : Text) (fs : List Text)
    → (ltb limit bytes && not (is_empty fs)) ≡ false
    → (leb bytes limit || length (f ∷ fs) == 1) ≡ true
stop_capped limit bytes f [] h = ground arith
stop_capped limit bytes f (g ∷ gs) h = ground arith

evict-Evicted :
    (limit : ℕ) (xs : List Text) (bytes : ℕ)
    → bytes ≡ total_bytes xs
    → Evicted limit xs (evict limit xs bytes)
unfolding evict
evict-Evicted limit [] bytes e = record {
  gone = [];
  whole = refl;
  needed = tt;
  counted = e;
  capped = ground arith;
  same_emptiness = refl;
}
evict-Evicted limit (f ∷ fs) bytes e =
    let rest = evict-Evicted limit fs (bytes - byte_len f) (omega (arith, e)) in
    if_cases (Evicted limit (f ∷ fs)) (ltb limit bytes && not (is_empty fs)) _ _
      (λ over. record {
        gone = f ∷ rest.gone;
        whole = ap (λ r. f ∷ r) rest.whole;
        needed =
            IsNeeded-cons limit f rest.gone (evict limit fs (bytes - byte_len f)).0 fs
              (ground (arith, over, e)) rest.whole rest.needed;
        counted = rest.counted;
        capped = rest.capped;
        same_emptiness = ground (arith, rest.same_emptiness);
      })
      (λ fits. record {
        gone = [];
        whole = refl;
        needed = tt;
        counted = e;
        capped = stop_capped limit bytes f fs fits;
        same_emptiness = refl;
      })

-- What a session's buffer is after one more frame.
pub record Pushed (frame : Text) (s t : Session) : Type 0 where
  pub trimmed : IsTrimmed t.scrollback (s.scrollback ++ frame ∷ [])
  pub bounded : IsBounded t.scrollback t.scrollback_bytes

pub push_frame-Pushed :
    (frame : Text) (s : Session)
    → s.scrollback_bytes ≡ total_bytes s.scrollback
    → Pushed frame s (push_frame frame s)
unfolding push_frame
push_frame-Pushed frame s e =
    let all = s.scrollback ++ frame ∷ [] in
    let v =
      evict-Evicted scrollback_max_bytes all (s.scrollback_bytes + byte_len frame)
        (omega (arith, e, total_bytes-append s.scrollback (frame ∷ []))) in
    record {
      trimmed = (v.gone, v.whole, v.needed, v.same_emptiness);
      bounded = (v.counted, v.capped);
    }
