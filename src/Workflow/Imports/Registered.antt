-- ===== src/Workflow/Imports/Registered.antt =====
-- backend-worker/internal/indexing/resolve.go: what is in the maps after all paths are registered.
use mathlib.Core.Path.{subst}
use code_intelegence.Base.{
  String, ◌≡◌, refl, Bool, true, false, not, ◌&&◌, ◌||◌, List, [], ◌∷◌, ◌++◌, arith, ◌==◌, eq_iff,
  eq_of_==, Bool-cases, Option-cases, inl, inr, All, Each, Each-insert, contains, lookup,
  if◌then◌else◌,
}
use code_intelegence.Workflow.Imports.{
  PathLibrary, PathMaps, index_file_names, add_first, collect, is_dts, strip_ext, add_preferred,
  add_primary, add_secondary, add_go, base_stem, returns_early, add_index, register_path,
  register_paths,
}

module _ (P : String → Type 0) where
  pub All-contains : (t : String) (xs : List String) → All P xs → contains t xs ≡ true → P t
  All-contains t [] h e = absurd (ground arith)
  All-contains t (x ∷ xs) h e = elim (Bool-cases (x == t)) [
    | inl same ↦ subst P (eq_of_== x t same) h.0
    | inr other ↦ All-contains t xs h.1 (rw other at e)
  ]

  pub All-of_contains : (xs : List String) → ((t : String) → contains t xs ≡ true → P t) → All P xs
  All-of_contains [] h = tt
  All-of_contains (x ∷ xs) h =
      (h x (ground (arith, eq_iff x x)), All-of_contains xs (λ t e. h t (ground (arith, e))))

  Each-if :
      (b : Bool) (m n : List (String × String)) → Each P m → Each P n → Each P (if b then m else n)
  Each-if true m n h k = h
  Each-if false m n h k = k

  Each-add_first :
      (k fp : String) (m : List (String × String)) → P fp → Each P m → Each P (add_first k fp m)
  unfolding add_first
  Each-add_first k fp m p h = elim (Option-cases (lookup k m)) [
    | inl e ↦ rw (e, Each) (Each-insert P k fp m p h)
    | inr (v, e) ↦ rw (e, Each) h
  ]

  module _ (lib : PathLibrary) where
    Each-add_preferred :
        (k fp : String) (m : List (String × String))
        → P fp
        → Each P m
        → Each P (add_preferred lib k fp m)
    unfolding add_preferred
    Each-add_preferred k fp m p h = elim (Option-cases (lookup k m)) [
      | inl e ↦ rw (e, Each) (Each-insert P k fp m p h)
      | inr (v, e) ↦ rw (e, Each) (Each-if (is_dts lib v) _ _ (Each-insert P k fp m p h) h)
    ]

    abbrev pub AllMaps : PathMaps → Type 0
    AllMaps m = All P m.exact × Each P m.stem_map × Each P m.dir_index × Each P m.go_dir

    Each-add_go :
        (fp : String) (m : List (String × String)) → P fp → Each P m → Each P (add_go lib fp m)
    Each-add_go fp m p h =
        Each-if (lib.has_suffix fp ".go") _ _ (Each-add_first (lib.dir fp) fp m p h) h

    Each-add_index :
        (fp : String) (m : List (String × String)) → P fp → Each P m → Each P (add_index lib fp m)
    Each-add_index fp m p h = elim (Option-cases (lookup (base_stem lib fp) index_file_names)) [
      | inl e ↦ rw (e, Each) h
      | inr (allowed, e) ↦
          rw (e, Each)
            (Each-if (contains (lib.ext fp) allowed) _ _ (Each-add_preferred (lib.dir fp) fp m p h)
              h)
    ]

    Each-add_stems :
        (fp : String) (m : List (String × String))
        → P fp
        → Each P m
        → Each P (add_secondary lib fp (add_primary lib fp m))
    Each-add_stems fp m p h =
        let stem = strip_ext lib fp in
        let primary : Each P (add_primary lib fp m) =
          Each-if (stem == fp) _ _ h (Each-add_preferred stem fp m p h) in
        Each-if (is_dts lib fp && not (strip_ext lib stem == stem)) _ _
          (Each-add_first (strip_ext lib stem) fp (add_primary lib fp m) p primary) primary

    register_path-AllMaps :
        (fp : String) (m : PathMaps) → P fp → AllMaps m → AllMaps (register_path lib fp m)
    unfolding register_path
    register_path-AllMaps fp m p (e, s, d, g) =
        let once = Each-add_go fp m.go_dir p g in
        (
          (p, e),
          Each-add_stems fp m.stem_map p s,
          Each-add_index fp m.dir_index p d,
          Each-if (returns_early lib fp) _ _ once (Each-add_go fp (add_go lib fp m.go_dir) p once),
        )

    pub register_paths-AllMaps :
        (paths : List String) (m : PathMaps)
        → All P paths
        → AllMaps m
        → AllMaps (register_paths lib paths m)
    unfolding register_paths
    register_paths-AllMaps [] m p h = h
    register_paths-AllMaps (fp ∷ paths) m p h =
        register_paths-AllMaps paths (register_path lib fp m) p.1 (register_path-AllMaps fp m p.0 h)

pub contains-append :
    (t : String) (xs ys : List String) → contains t (xs ++ ys) ≡ (contains t xs || contains t ys)
contains-append t [] ys = refl
contains-append t (x ∷ xs) ys = ground (arith, contains-append t xs ys)

pub contains-collect :
    (t : String) (seen paths : List String)
    → (contains t (collect seen paths) || contains t seen) ≡ (contains t paths || contains t seen)
unfolding collect
contains-collect t seen [] = refl
contains-collect t seen (p ∷ paths) = elim (Bool-cases (contains p seen)) [
  | inl e ↦
      rw (e, ◌||◌)
        (elim (Bool-cases (p == t)) [
          | inl same ↦
              let here : contains t seen ≡ true =
                subst (λ x. contains x seen ≡ true) (eq_of_== p t same) e in
              ground arith
          | inr other ↦ rw other (contains-collect t seen paths)
        ])
  | inr e ↦ rw (e, ◌||◌) (ground (arith, contains-collect t (p ∷ seen) paths))
]

-- The set `exact` has the paths that were registered.
pub contains-exact :
    (lib : PathLibrary) (t : String) (paths : List String) (m : PathMaps)
    → contains t (register_paths lib paths m).exact ≡ (contains t paths || contains t m.exact)
unfolding register_paths register_path
contains-exact lib t [] m = refl
contains-exact lib t (p ∷ paths) m =
    ground (arith, contains-exact lib t paths (register_path lib p m))
