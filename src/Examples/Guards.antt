-- ===== src/Examples/Guards.antt =====
-- The theorems on the guards of paths, in a workspace of the home directory.
use zeromux.DiffFilter.{any_of}
use zeromux.PathGuards.{
  ok, path_hits_sensitive_dir, is_sensitive, read_hits_home_dotdir, is_write_blocked, probe_at,
  verified, verify, attach, resolve_components, resolve_and_verify, resolve_write_target,
}
use zeromux.PathGuards.Resolve.{
  IsWritable, resolve_and_verify-walk, resolve_write_target-IsWritable,
}
use zeromux.Paths.{push_char, split_slash, components, last}
use zeromux.Prelude.{◌≡◌, refl, some, List, [], ◌∷◌, Text, codes}

abbrev home : List Text
home = codes "home" ∷ codes "me" ∷ []

abbrev workspace : List Text
workspace = codes "home" ∷ codes "me" ∷ codes "app" ∷ []

resolve_and_verify-walk_example :
    resolve_and_verify (λ p. some p) workspace (codes "src/../docs/plan.md")
    ≡ ok (codes "home" ∷ codes "me" ∷ codes "app" ∷ codes "docs" ∷ codes "plan.md" ∷ [])
unfolding components split_slash push_char
resolve_and_verify-walk_example =
    resolve_and_verify-walk (λ p. some p) (codes "home") (codes "me" ∷ codes "app" ∷ [])
      (codes "src/../docs/plan.md")

resolve_write_target-IsWritable_example :
    IsWritable
      (some home)
      (λ p. some p)
      workspace
      (components (codes "docs/plan.md"))
      (codes "home" ∷ codes "me" ∷ codes "app" ∷ codes "docs" ∷ codes "plan.md" ∷ [])
unfolding components split_slash push_char last resolve_write_target resolve_components probe_at
    verified verify attach is_write_blocked path_hits_sensitive_dir is_sensitive any_of
    read_hits_home_dotdir
resolve_write_target-IsWritable_example =
    resolve_write_target-IsWritable (some home) (λ p. some p) (codes "home")
      (codes "me" ∷ codes "app" ∷ []) (codes "docs/plan.md")
      (codes "home" ∷ codes "me" ∷ codes "app" ∷ codes "docs" ∷ codes "plan.md" ∷ []) refl
