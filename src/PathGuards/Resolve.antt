-- ===== src/PathGuards/Resolve.antt =====
-- What the two layers of the guards accept.
use zeromux.Paths.{components, last}
use zeromux.PathGuards.{
  Resolved, ok, refused, strip_base, pop, is_parent_dir, probe_at, verify, resolve_components,
  resolve_and_verify, is_absolute, verified, attach, resolve_write_target, path_hits_sensitive_dir,
  read_hits_home_dotdir, is_write_blocked, is_sensitive,
}
use zeromux.Prelude.{
  codes, ◌≢◌, text_eq, text_eq_refl, inl, inr, Bool-cases, ◌≡◌, refl, sym, ap, Bool, true, false,
  Option, none, some, List, [], ◌∷◌, ◌++◌, is_some, Text, text_eq_refl, if◌then◌else◌, arith,
  Bool-cases, inl, inr, Option-cases, any, ◌∙◌,
}
use mathlib.Core.Bool.{false≢true}
use mathlib.Core.List.{append_assoc, append-nil}

-- A walk below the base: no walk, if the components lead out of it at any point.
abbrev pub walk : List Text → List Text → Option (List Text)
walk below [] = some below
walk [] (c ∷ cs) = let down = walk (c ∷ []) cs in if is_parent_dir c then none else down
walk (n ∷ ns) (c ∷ cs) =
    let up = walk (pop (n ∷ ns)) cs in
    let down = walk ((n ∷ ns) ++ (c ∷ [])) cs in if is_parent_dir c then up else down

strip_base-append : (base p : List Text) → strip_base base (base ++ p) ≡ some p
strip_base-append [] p = refl
strip_base-append (b ∷ base) p = rw (text_eq_refl b, strip_base-append base p) refl

pop-append : (base p : List Text) (n : Text) → pop (base ++ (n ∷ p)) ≡ base ++ pop (n ∷ p)
pop-append [] p n = refl
pop-append (b ∷ []) p n = refl
pop-append (b ∷ c ∷ base) p n = ap (λ q. b ∷ q) (pop-append (c ∷ base) p n)

strip_base-pop : (b : Text) (base : List Text) → strip_base (b ∷ base) (pop (b ∷ base)) ≡ none
strip_base-pop b [] = refl
strip_base-pop b (c ∷ base) = rw (text_eq_refl b, strip_base-pop c base) refl

abbrev probed : List Text → Option (List Text) → Resolved
probed base none = refused 403 "Path traversal denied"
probed base (some below) = ok (base ++ below)

probe_at-walk :
    (b : Text) (bs p cs : List Text)
    → probe_at (b ∷ bs) ((b ∷ bs) ++ p) cs ≡ probed (b ∷ bs) (walk p cs)
unfolding probe_at
probe_at-walk b bs [] [] = refl
probe_at-walk b bs (n ∷ p) [] = refl
probe_at-walk b bs [] (c ∷ cs) =
    rw (append-nil bs, strip_base-pop b bs, probe_at-walk b bs (c ∷ []) cs)
      (elim (Bool-cases (is_parent_dir c)) [ inl up ↦ rw up refl | inr down ↦ rw down refl ])
probe_at-walk b bs (n ∷ p) (c ∷ cs) =
    rw
      (
        pop-append (b ∷ bs) p n,
        strip_base-append (b ∷ bs) (pop (n ∷ p)),
        append_assoc bs (n ∷ p) (c ∷ []),
        probe_at-walk b bs (pop (n ∷ p)) cs,
        probe_at-walk b bs (n ∷ (p ++ (c ∷ []))) cs,
      )
      (elim (Bool-cases (is_parent_dir c)) [ inl up ↦ rw up refl | inr down ↦ rw down refl ])

-- What is to be expected of a path: refused if it is absolute, or its components lead out of the base at any point, or it is not there, or it stands elsewhere.
abbrev pub expected :
    (List Text → Option (List Text)) → List Text → Bool → Option (List Text) → Resolved
expected canonicalize base true below = refused 400 "Invalid path component"
expected canonicalize base false none = refused 403 "Path traversal denied"
expected canonicalize base false (some below) = elim (canonicalize (base ++ below)) [
  | none ↦ refused 403 "Path not resolvable under workspace"
  | some real ↦
      if is_some (strip_base base real) then ok real else refused 403 "Path escapes workspace"
]

resolve_components-walk :
    (canonicalize : List Text → Option (List Text)) (b : Text) (bs : List Text) (absolute : Bool)
    (cs : List Text)
    → resolve_components canonicalize (b ∷ bs) absolute cs
      ≡ expected canonicalize (b ∷ bs) absolute (walk [] cs)
unfolding resolve_components verified verify
resolve_components-walk canonicalize b bs true cs = refl
resolve_components-walk canonicalize b bs false cs =
    let start : probe_at (b ∷ bs) (b ∷ bs) cs ≡ probed (b ∷ bs) (walk [] cs) =
      ap (λ q. probe_at (b ∷ bs) (b ∷ q) cs) (sym (append-nil bs)) ∙ probe_at-walk b bs [] cs in
    rw start (elim (Option-cases (walk [] cs)) [
      | inl out ↦ rw out refl
      | inr (below, inside) ↦ rw inside refl
    ])

-- Below a base that is not the root of the file system, the code that reads a path accepts and refuses just what is expected, with the same status and message, whatever links the file system holds: the path is refused if it is absolute; if its components, taken as a walk that starts in the base, lead out of it at any point; if the path that the walk ends at cannot be resolved; and if it resolves to a path outside the base. Else the resolved path is given.
pub resolve_and_verify-walk :
    (canonicalize : List Text → Option (List Text)) (b : Text) (bs : List Text) (rel : Text)
    → resolve_and_verify canonicalize (b ∷ bs) rel
      ≡ expected canonicalize (b ∷ bs) (is_absolute rel) (walk [] (components rel))
unfolding resolve_and_verify
resolve_and_verify-walk canonicalize b bs rel =
    resolve_components-walk canonicalize b bs (is_absolute rel) (components rel)

-- A path that is written to, as it is to be: a name in a folder below the base.
abbrev pub IsWritable :
    Option (List Text)
    → (List Text → Option (List Text))
    → List Text
    → List Text
    → List Text
    → Type 0
IsWritable home canonicalize base cs target =
    (below : List Text) × (real : List Text) × (folder : List Text) × (leaf : Text) × (walk []
        (pop cs)
      ≡ some below)
    × (canonicalize (base ++ below) ≡ some real)
    × (strip_base base real ≡ some folder)
    × (last cs ≡ some leaf)
    × (leaf ≢ codes "..")
    × (target ≡ real ++ leaf ∷ [])
    × (strip_base base target ≡ some (folder ++ leaf ∷ []))
    × (any is_sensitive (folder ++ leaf ∷ []) ≡ false)
    × (read_hits_home_dotdir home target ≡ false)

strip_base-snoc :
    (base real folder : List Text) (leaf : Text)
    → strip_base base real ≡ some folder
    → strip_base base (real ++ leaf ∷ []) ≡ some (folder ++ leaf ∷ [])
strip_base-snoc [] real folder leaf h = ground (arith, h)
strip_base-snoc (b ∷ base) [] folder leaf h = cc
strip_base-snoc (b ∷ base) (n ∷ real) folder leaf h = elim (Bool-cases (text_eq b n)) [
  | inl e ↦ rw e (strip_base-snoc base real folder leaf (ground (arith, e, h)))
  | inr e ↦ absurd (ground (arith, e, h))
]

expected-ok :
    (canonicalize : List Text → Option (List Text)) (base : List Text) (absolute : Bool)
    (way : Option (List Text)) (real : List Text)
    → expected canonicalize base absolute way ≡ ok real
    → (below : List Text) × (folder : List Text) × (way ≡ some below)
      × (canonicalize (base ++ below) ≡ some real)
      × (strip_base base real ≡ some folder)
expected-ok canonicalize base true way real h = cc
expected-ok canonicalize base false none real h = cc
expected-ok canonicalize base false (some below) real h =
    elim (Option-cases (strip_base base real)) [
      | inl out ↦ absurd (ground (arith, out, h))
      | inr (folder, inside) ↦ (below, folder, refl, ground (arith, h), inside)
    ]

attach-ok :
    (home : Option (List Text)) (base : List Text) (leaf : Text) (parent : Resolved)
    (target : List Text)
    → attach home base leaf parent ≡ ok target
    → (real : List Text) × (rest : List Text) × (parent ≡ ok real)
      × (target ≡ real ++ (leaf ∷ []))
      × (strip_base base target ≡ some rest)
      × (any is_sensitive rest ≡ false)
      × (read_hits_home_dotdir home target ≡ false)
unfolding attach is_write_blocked path_hits_sensitive_dir
attach-ok home base leaf (refused status message) target h = cc
attach-ok home base leaf (ok real) target h =
    let same : target ≡ real ++ (leaf ∷ []) = ground arith in
    elim (Option-cases (strip_base base (real ++ (leaf ∷ [])))) [
      | inl out ↦ ground (arith, out, h)
      | inr (rest, inside) ↦ (
        real,
        rest,
        refl,
        same,
        ap (strip_base base) same ∙ inside,
        ground (arith, inside, h),
        rw same (ground (arith, h)),
      )
    ]

written :
    (home : Option (List Text)) (canonicalize : List Text → Option (List Text))
    (base cs target : List Text) (leaf : Text) (absolute : Bool)
    → last cs ≡ some leaf
    → is_parent_dir leaf ≡ false
    → attach home base leaf (expected canonicalize base absolute (walk [] (pop cs))) ≡ ok target
    → IsWritable home canonicalize base cs target
written home canonicalize base cs target leaf absolute named no_step h =
    let (real, rest, parent, same, inside, open_, at_home) =
      attach-ok home base leaf (expected canonicalize base absolute (walk [] (pop cs))) target h in
    let (below, folder, way, there, under) =
      expected-ok canonicalize base absolute (walk [] (pop cs)) real parent in
    let whole : strip_base base target ≡ some (folder ++ leaf ∷ []) =
      ap (strip_base base) same ∙ strip_base-snoc base real folder leaf under in
    (
      below,
      real,
      folder,
      leaf,
      way,
      there,
      under,
      named,
      (λ e. absurd (false≢true (sym no_step ∙ ap is_parent_dir e))),
      same,
      whole,
      ground (arith, open_, inside, whole),
      at_home,
    )

-- Below a base that is not the root of the file system, a path that is accepted to be written to is the
-- last component of the path that was asked for, which is not `..`, in a folder: the one that the other
-- components lead to without leaving the base, with its links resolved. That folder is the base or
-- stands below it, no name on the way from the base to the path, its own included, is a sensitive
-- folder's, the home directory is known, and the path is not in a hidden folder of it.
pub resolve_write_target-IsWritable :
    (home : Option (List Text)) (canonicalize : List Text → Option (List Text)) (b : Text)
    (bs : List Text) (rel : Text) (target : List Text)
    → resolve_write_target home canonicalize (b ∷ bs) rel ≡ ok target
    → IsWritable home canonicalize (b ∷ bs) (components rel) target
unfolding resolve_write_target
resolve_write_target-IsWritable home canonicalize b bs rel target h =
    elim (Option-cases (last (components rel))) [
      | inl nameless ↦ ground (arith, nameless, h)
      | inr (leaf, named) ↦
          let accepted : attach home (b ∷ bs) leaf
                (resolve_components canonicalize (b ∷ bs) (is_absolute rel) (pop (components rel)))
              ≡ ok target =
            ground (arith, named, h) in
          written home canonicalize (b ∷ bs) (components rel) target leaf (is_absolute rel) named
            (ground (arith, named, h))
            (ap (attach home (b ∷ bs) leaf) (
                sym (
                  resolve_components-walk canonicalize b bs (is_absolute rel)
                    (pop (components rel))))
              ∙ accepted)
    ]
