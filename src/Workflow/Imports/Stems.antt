-- ===== src/Workflow/Imports/Stems.antt =====
-- backend-worker/internal/indexing/resolve.go: what stands at a stem after all paths
-- are registered: an implementation file before any declaration file.
use mathlib.Core.Path.{subst}
use code_intelegence.Base.{
  String, ◌≡◌, refl, sym, Bool, true, false, not, ◌&&◌, ◌||◌, Option, none, some, List, [], ◌∷◌,
  arith, ◌==◌, eq_iff, eq_of_==, Bool-cases, Option-cases, ◌⊎◌, inl, inr, contains, lookup, insert,
  lookup-insert,
}
use code_intelegence.Workflow.Imports.{
  PathLibrary, PathMaps, no_paths, add_first, is_dts, strip_ext, add_preferred, add_primary,
  add_secondary, register_path, register_paths,
}

abbrev pub Stems : Type 0
Stems = List (String × String)

module _ (lib : PathLibrary) where
  -- The path may stand at this key: it has that stem, or it is a declaration file.
  abbrev pub fits : String → String → Bool
  fits fp k = is_dts lib fp || strip_ext lib fp == k

  abbrev pub Keyed : Stems → Type 0
  Keyed m = (k v : String) → lookup k m ≡ some v → fits v k ≡ true

  abbrev pub is_implementation : Option String → Bool
  is_implementation none = false
  is_implementation (some v) = not (is_dts lib v)

  abbrev pub has_implementation : String → Stems → Bool
  has_implementation t m = is_implementation (lookup t m)

  -- What adding a path does: nothing, or an entry at a key that has no implementation file.
  abbrev Added : String → Stems → Stems → Type 0
  Added fp m new =
      (new ≡ m)
      ⊎ ((k : String) × (new ≡ insert k fp m)
          × (has_implementation k m ≡ false)
          × (fits fp k ≡ true))

  Added-Keyed : (fp : String) (m new : Stems) → Added fp m new → Keyed m → Keyed new
  Added-Keyed fp m new (inl same) h = rw same h
  Added-Keyed fp m new (inr (k, e, free, ok)) h = rw e (λ j v found. elim (Bool-cases (k == j)) [
    | inl same ↦
        let here : fp ≡ v = ground (arith, lookup-insert k j fp m) in
        subst (λ x. fits x j ≡ true) here (subst (λ x. fits fp x ≡ true) (eq_of_== k j same) ok)
    | inr other ↦ h j v (ground (arith, lookup-insert k j fp m))
  ])

  Added-has_implementation :
      (t fp : String) (m new : Stems)
      → Added fp m new
      → has_implementation t m ≡ true
      → has_implementation t new ≡ true
  Added-has_implementation t fp m new (inl same) h = rw same h
  Added-has_implementation t fp m new (inr (k, e, free, ok)) h = rw e (elim (Bool-cases (k == t)) [
    | inl same ↦
        let taken : has_implementation k m ≡ true =
          subst (λ x. has_implementation x m ≡ true) (sym (eq_of_== k t same)) h in
        absurd (ground arith)
    | inr other ↦ rw (lookup-insert k t fp m, other) h
  ])

  add_preferred-cases :
      (k fp : String) (m : Stems)
      → ((add_preferred lib k fp m ≡ m) × (has_implementation k m ≡ true))
        ⊎ ((add_preferred lib k fp m ≡ insert k fp m) × (has_implementation k m ≡ false))
  unfolding add_preferred
  add_preferred-cases k fp m = elim (Option-cases (lookup k m)) [
    | inl e ↦ inr (rw (e, add_preferred) refl, ground (arith, e))
    | inr (v, e) ↦ elim (Bool-cases (is_dts lib v)) [
      | inl declared ↦ inr (rw (e, add_preferred, declared) refl, ground (arith, e))
      | inr implemented ↦ inl (rw (e, add_preferred, implemented) refl, ground (arith, e))
    ]
  ]

  add_preferred-Added :
      (k fp : String) (m : Stems) → fits fp k ≡ true → Added fp m (add_preferred lib k fp m)
  add_preferred-Added k fp m ok = elim (add_preferred-cases k fp m) [
    | inl (same, taken) ↦ inl same
    | inr (e, free) ↦ inr (k, e, free, ok)
  ]

  add_first-Added : (k fp : String) (m : Stems) → fits fp k ≡ true → Added fp m (add_first k fp m)
  unfolding add_first
  add_first-Added k fp m ok = elim (Option-cases (lookup k m)) [
    | inl e ↦ inr (k, rw (e, add_first) refl, ground (arith, e), ok)
    | inr (v, e) ↦ inl (rw (e, add_first) refl)
  ]

  add_primary-Added : (fp : String) (m : Stems) → Added fp m (add_primary lib fp m)
  add_primary-Added fp m = elim (Bool-cases (strip_ext lib fp == fp)) [
    | inl same ↦ rw same (inl refl)
    | inr changed ↦ rw changed (
        add_preferred-Added (strip_ext lib fp) fp m
          (ground (arith, eq_iff (strip_ext lib fp) (strip_ext lib fp))))
  ]

  add_secondary-Added : (fp : String) (m : Stems) → Added fp m (add_secondary lib fp m)
  add_secondary-Added fp m =
      let secondary = strip_ext lib (strip_ext lib fp) in
      elim (Bool-cases (is_dts lib fp && not (secondary == strip_ext lib fp))) [
        | inl declared ↦ rw declared (add_first-Added secondary fp m (ground arith))
        | inr skipped ↦ rw skipped (inl refl)
      ]

  -- Registering an implementation file gives its stem one.
  has_implementation-add_primary :
      (fp : String) (m : Stems)
      → is_dts lib fp ≡ false
      → (strip_ext lib fp == fp) ≡ false
      → has_implementation (strip_ext lib fp) (add_primary lib fp m) ≡ true
  has_implementation-add_primary fp m implementation changed =
      rw changed (elim (add_preferred-cases (strip_ext lib fp) fp m) [
        | inl (same, taken) ↦ rw same taken
        | inr (e, free) ↦ rw e (
            ground (
              arith,
              lookup-insert (strip_ext lib fp) (strip_ext lib fp) fp m,
              eq_iff (strip_ext lib fp) (strip_ext lib fp),
            ))
      ])

  pub no_paths-Keyed : Keyed no_paths.stem_map
  unfolding lookup
  no_paths-Keyed k v h = absurd (ground arith)

  pub register_paths-Keyed :
      (paths : List String) (m : PathMaps)
      → Keyed m.stem_map
      → Keyed (register_paths lib paths m).stem_map
  unfolding register_paths register_path
  register_paths-Keyed [] m h = h
  register_paths-Keyed (p ∷ paths) m h =
      let primary = add_primary lib p m.stem_map in
      register_paths-Keyed paths (register_path lib p m) (
        Added-Keyed p primary (add_secondary lib p primary) (add_secondary-Added p primary)
          (Added-Keyed p m.stem_map primary (add_primary-Added p m.stem_map) h))

  register_path-keeps :
      (t p : String) (m : PathMaps)
      → has_implementation t (add_primary lib p m.stem_map) ≡ true
      → has_implementation t (register_path lib p m).stem_map ≡ true
  unfolding register_path
  register_path-keeps t p m h =
      let primary = add_primary lib p m.stem_map in
      Added-has_implementation t p primary (add_secondary lib p primary)
        (add_secondary-Added p primary) h

  register_paths-keeps :
      (t : String) (paths : List String) (m : PathMaps)
      → has_implementation t m.stem_map ≡ true
      → has_implementation t (register_paths lib paths m).stem_map ≡ true
  unfolding register_paths
  register_paths-keeps t [] m h = h
  register_paths-keeps t (p ∷ paths) m h = register_paths-keeps t paths (register_path lib p m) (
      register_path-keeps t p m (
        Added-has_implementation t p m.stem_map (add_primary lib p m.stem_map)
          (add_primary-Added p m.stem_map) h))

  pub register_paths-has_implementation :
      (fp : String) (paths : List String) (m : PathMaps)
      → contains fp paths ≡ true
      → is_dts lib fp ≡ false
      → (strip_ext lib fp == fp) ≡ false
      → has_implementation (strip_ext lib fp) (register_paths lib paths m).stem_map ≡ true
  unfolding register_paths
  register_paths-has_implementation fp [] m c d s = absurd (ground arith)
  register_paths-has_implementation fp (p ∷ paths) m c d s = elim (Bool-cases (p == fp)) [
    | inl here ↦
        subst
          (λ x.
            has_implementation (strip_ext lib fp)
              (register_paths lib paths (register_path lib x m)).stem_map
            ≡ true)
          (sym (eq_of_== p fp here))
          (register_paths-keeps (strip_ext lib fp) paths (register_path lib fp m) (
            register_path-keeps (strip_ext lib fp) fp m
              (has_implementation-add_primary fp m.stem_map d s)))
    | inr later ↦
        register_paths-has_implementation fp paths (register_path lib p m) (rw later at c) d s
  ]
