-- ===== src/Workflow/Imports/Known.antt =====
-- backend-worker/internal/indexing/resolve.go: the targets that are written are paths of the
-- project.
use mathlib.Core.Path.{subst}
use code_intelegence.Base.{
  String, ◌≡◌, refl, sym, ap, ◌∙◌, Bool, true, false, not, ◌&&◌, ◌||◌, some, List, [], ◌∷◌, arith,
  ◌==◌, eq_iff, Bool-cases, Option-cases, ◌⊎◌, inl, inr, Each-lookup, contains, lookup,
}
use code_intelegence.Workflow.Imports.{
  PathLibrary, Import, ImportingFile, PathMaps, no_paths, collect, project_paths, resolve_internal,
  convert_import_to_path, find_candidate, reclassify, map_imports, each_file, path_maps,
  resolve_import_targets,
}
use code_intelegence.Workflow.Imports.Registered.{
  AllMaps, All-of_contains, register_paths-AllMaps, contains-collect, contains-exact,
}

-- The order of the paths says nothing about which they are.
abbrev pub KeepsElements : (List String → List String) → Type 0
KeepsElements sort = (p : String) (paths : List String) → contains p (sort paths) ≡ contains p paths

-- The import may be given a target: it is internal with a target that is no path of the project, or
-- external without a target.
abbrev pub is_open : List String → Import → Bool
is_open known imp =
    (imp.import_type == "INTERNAL"
      && (not (imp.target_file_path == "") && not (contains imp.target_file_path known)))
    || (imp.import_type == "EXTERNAL" && imp.target_file_path == "")

-- The import is as before, or it was open and is now internal with a path of the project as target.
abbrev pub Resolved : List String → Import → Import → Type 0
Resolved known imp new =
    (new ≡ imp)
    ⊎ ((is_open known imp ≡ true)
        × (contains new.target_file_path known ≡ true)
        × (new ≡ record imp { target_file_path = new.target_file_path; import_type = "INTERNAL" }))

abbrev pub ResolvedAll : List String → List Import → List Import → Type 0
ResolvedAll known [] [] = Unit
ResolvedAll known (i ∷ imports) (j ∷ new) = Resolved known i j × ResolvedAll known imports new
ResolvedAll known _ _ = ⊥

abbrev pub ResolvedFiles : List String → List ImportingFile → List ImportingFile → Type 0
ResolvedFiles known [] [] = Unit
ResolvedFiles known (f ∷ files) (g ∷ new) =
    ((g ≡ record f { imports = g.imports }) × ResolvedAll known f.imports g.imports)
    × ResolvedFiles known files new
ResolvedFiles known _ _ = ⊥

module _ (m : PathMaps) where
  abbrev is_skipped : Import → Bool
  is_skipped imp =
      not (imp.import_type == "INTERNAL")
      || imp.target_file_path == ""
      || contains imp.target_file_path m.exact

  resolve_internal-cases :
      (imp : Import)
      → (resolve_internal m imp ≡ imp)
        ⊎ ((v : String) × (is_skipped imp ≡ false)
            × ((lookup imp.target_file_path m.stem_map ≡ some v)
                ⊎ (lookup imp.target_file_path m.dir_index ≡ some v))
            × (resolve_internal m imp ≡ record imp { target_file_path = v }))
  unfolding resolve_internal
  resolve_internal-cases imp = elim (Bool-cases (is_skipped imp)) [
    | inl skipped ↦ inl (rw skipped refl)
    | inr passed ↦ elim (Option-cases (lookup imp.target_file_path m.stem_map)) [
      | inr (v, s) ↦ inr (v, passed, inl s, rw (passed, s) refl)
      | inl no_stem ↦ elim (Option-cases (lookup imp.target_file_path m.dir_index)) [
        | inr (v, d) ↦ inr (v, passed, inr d, rw (passed, no_stem, d) refl)
        | inl no_dir ↦ inl (rw (passed, no_stem, no_dir) refl)
      ]
    ]
  ]

module _ (lib : PathLibrary) (sorts : KeepsElements lib.sort) (files : List ImportingFile)
    (all_paths : List String) where
  abbrev known : List String
  known = project_paths files all_paths

  abbrev maps : PathMaps
  maps = path_maps lib files all_paths

  abbrev IsKnown : String → Type 0
  IsKnown p = contains p known ≡ true

  pub contains-registered :
      (t : String) → contains t (lib.sort (collect [] known)) ≡ contains t known
  contains-registered t = ground (arith, sorts t (collect [] known), contains-collect t [] known)

  pub contains-exact_known : (t : String) → contains t maps.exact ≡ contains t known
  unfolding path_maps
  contains-exact_known t =
      ground
        (arith, contains-exact lib t (lib.sort (collect [] known)) no_paths, contains-registered t)

  maps-AllMaps : AllMaps IsKnown lib maps
  unfolding path_maps
  maps-AllMaps =
      register_paths-AllMaps IsKnown lib (lib.sort (collect [] known)) no_paths
        (All-of_contains IsKnown (lib.sort (collect [] known))
          (λ t h. sym (contains-registered t) ∙ h))
        (tt, tt, tt, tt)

  is_skipped-is_open :
      (imp : Import)
      → is_skipped maps imp ≡ false
      → (is_open known imp ≡ true) × (imp.import_type ≡ "INTERNAL")
  is_skipped-is_open imp h =
      let exact = contains-exact_known imp.target_file_path in
      (ground (arith, exact), ground (arith, eq_iff imp.import_type "INTERNAL"))

  written :
      (imp new : Import) (v : String)
      → is_open known imp ≡ true
      → IsKnown v
      → new ≡ record imp { target_file_path = v; import_type = "INTERNAL" }
      → Resolved known imp new
  written imp new v opened v_known e =
      subst (λ n. Resolved known imp n) (sym e) (inr (opened, v_known, refl))

  pub in_stems : (k v : String) → lookup k maps.stem_map ≡ some v → IsKnown v
  in_stems k v h = Each-lookup IsKnown k v maps.stem_map h maps-AllMaps.1

  in_dirs : (k v : String) → lookup k maps.dir_index ≡ some v → IsKnown v
  in_dirs k v h = Each-lookup IsKnown k v maps.dir_index h maps-AllMaps.2

  resolve_internal-Resolved : (imp : Import) → Resolved known imp (resolve_internal maps imp)
  resolve_internal-Resolved imp = elim (resolve_internal-cases maps imp) [
    | inl same ↦ inl same
    | inr (v, passed, found, new) ↦
        let (opened, internal) = is_skipped-is_open imp passed in
        written imp (resolve_internal maps imp) v opened
          (elim found [
            | inl s ↦ in_stems imp.target_file_path v s
            | inr d ↦ in_dirs imp.target_file_path v d
          ])
          (new ∙ ap (λ t. record imp { target_file_path = v; import_type = t }) internal)
  ]

  find_candidate-IsKnown :
      (language candidate found : String)
      → find_candidate maps language candidate ≡ some found
      → IsKnown found
  unfolding find_candidate
  find_candidate-IsKnown language candidate found h =
      elim (Bool-cases (contains candidate maps.exact)) [
        | inl e ↦
            let same : candidate ≡ found = ground arith in
            subst IsKnown same (sym (contains-exact_known candidate) ∙ e)
        | inr not_exact ↦ elim (Option-cases (lookup candidate maps.stem_map)) [
          | inr (v, s) ↦ in_stems candidate found (ground arith)
          | inl no_stem ↦ elim (Option-cases (lookup candidate maps.dir_index)) [
            | inr (v, d) ↦ in_dirs candidate found (ground arith)
            | inl no_dir ↦
                Each-lookup IsKnown candidate found maps.go_dir (ground arith) maps-AllMaps.3
          ]
        ]
      ]

  reclassify-Resolved :
      (language go_module_path : String) (imp : Import)
      → Resolved known imp (reclassify lib maps language go_module_path imp)
  unfolding reclassify
  reclassify-Resolved language go_module_path imp =
      let candidate = convert_import_to_path lib imp.import_name language go_module_path in
      let skipped =
        not (imp.import_type == "EXTERNAL")
        || not (imp.target_file_path == "")
        || candidate == "" in
      elim (Bool-cases skipped) [
        | inl left ↦ inl (rw left refl)
        | inr passed ↦ elim (Option-cases (find_candidate maps language candidate)) [
          | inl none_found ↦ inl (rw (passed, none_found) refl)
          | inr (v, found) ↦
              written imp _ v (ground arith) (find_candidate-IsKnown language candidate v found)
                (rw (passed, found) refl)
        ]
      ]

  -- The second loop leaves what the first one has resolved.
  pub reclassify_internal :
      (language go_module_path : String) (imp : Import)
      → imp.import_type ≡ "INTERNAL"
      → reclassify lib maps language go_module_path imp ≡ imp
  unfolding reclassify
  reclassify_internal language go_module_path imp h =
      let other : (imp.import_type == "EXTERNAL") ≡ false = rw h refl in rw other refl

  both_loops-Resolved :
      (language go_module_path : String) (imp : Import)
      → Resolved known imp (reclassify lib maps language go_module_path (resolve_internal maps imp))
  both_loops-Resolved language go_module_path imp = elim (resolve_internal-Resolved imp) [
    | inl same ↦
        subst (λ i. Resolved known imp (reclassify lib maps language go_module_path i)) (sym same)
          (reclassify-Resolved language go_module_path imp)
    | inr changed ↦
        subst (λ i. Resolved known imp i)
          (sym (
            reclassify_internal language go_module_path (resolve_internal maps imp)
              (ap (λ i. i.import_type) changed.2)))
          (inr changed)
  ]

  imports-ResolvedAll :
      (f : ImportingFile) (go_module_path : String) (imports : List Import)
      → ResolvedAll known imports (
          map_imports
            (reclassify lib maps f.language go_module_path)
            (map_imports (resolve_internal maps) imports))
  imports-ResolvedAll f go_module_path [] = tt
  imports-ResolvedAll f go_module_path (i ∷ imports) = (
    both_loops-Resolved f.language go_module_path i,
    imports-ResolvedAll f go_module_path imports,
  )

  files-ResolvedFiles :
      (go_module_path : String) (some_files : List ImportingFile)
      → ResolvedFiles known some_files (
          each_file
            (λ f. reclassify lib maps f.language go_module_path)
            (each_file (λ f. resolve_internal maps) some_files))
  files-ResolvedFiles go_module_path [] = tt
  files-ResolvedFiles go_module_path (f ∷ some_files) = (
    (refl, imports-ResolvedAll f go_module_path f.imports),
    files-ResolvedFiles go_module_path some_files,
  )

  -- If sorting keeps the elements, then only the imports of a file change, and of these only one
  -- that is internal with a target that is no path of the project, or external without a target.
  -- Such an import is left, or it becomes internal, its target a path of the project, and its
  -- other fields stay.
  pub resolve_import_targets-ResolvedFiles :
      (go_module_path : String)
      → ResolvedFiles
          (project_paths files all_paths)
          files
          (resolve_import_targets lib files all_paths go_module_path)
  unfolding resolve_import_targets
  resolve_import_targets-ResolvedFiles go_module_path = files-ResolvedFiles go_module_path files
