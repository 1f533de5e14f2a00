-- ===== src/Examples/Diffs.antt =====
-- The theorem on diffs, at a diff with a secret that was renamed.
use zeromux.DiffFilter.{
  any_of, is_secret_leaf, is_credential_path, worktree_path_excluded, filter_diff_excluded,
  occurrences,
}
use zeromux.DiffFilter.Kept.{filter_diff_excluded-shown}
use zeromux.DiffFilter.Sections.{Section, two_way, merged, diff_text, is_plain, IsPath}
use zeromux.Paths.{push_char, split_slash, components, last}
use zeromux.Prelude.{◌≡◌, refl, [], ◌∷◌, codes, Text, true, false, not, any, is_empty, All, arith}

codes-IsPath : (p : Text) → is_empty p ≡ false → any (λ c. not (is_plain c)) p ≡ false → IsPath p
codes-IsPath p h k = (h, all_plain p k)
  where
    all_plain : (p : Text) → any (λ c. not (is_plain c)) p ≡ false → All (λ c. is_plain c ≡ true) p
    all_plain [] k = tt
    all_plain (c ∷ p) k = (ground (arith, k), all_plain p (ground (arith, k)))

abbrev renamed : Section
renamed = record {
  header = two_way (codes ".env") (codes "config.txt");
  body = codes "rename from .env" ∷ codes "-TOKEN=1" ∷ [];
}

abbrev resolved : Section
resolved = record { header = merged (codes "src/main.rs"); body = codes "++let x = 1;" ∷ [] }

filter_diff_excluded-shown_example :
    filter_diff_excluded (diff_text (renamed ∷ resolved ∷ [])) ≡ diff_text (resolved ∷ [])
unfolding worktree_path_excluded is_credential_path any_of push_char split_slash components last
    is_secret_leaf occurrences
filter_diff_excluded-shown_example = filter_diff_excluded-shown (renamed ∷ resolved ∷ []) (
  (
    (codes-IsPath (codes ".env") refl refl, codes-IsPath (codes "config.txt") refl refl),
    ((refl, refl), ((refl, refl), tt)),
  ),
  ((codes-IsPath (codes "src/main.rs") refl refl, ((refl, refl), tt)), tt),
)
