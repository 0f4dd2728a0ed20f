-- ===== src/Workflow/Imports/Preferred.antt =====
-- backend-worker/internal/indexing/resolve.go: a target without an extension becomes an
-- implementation file with that stem, before any declaration file.
use mathlib.Core.Path.{subst}
use code_intelegence.Base.{
  String, ◌≡◌, refl, ap, ◌∙◌, true, false, some, List, [], arith, ◌==◌, eq_of_==, Bool-cases,
  Option-cases, inl, inr, contains, lookup,
}
use code_intelegence.Workflow.Imports.{
  PathLibrary, Import, ImportingFile, PathMaps, no_paths, collect, project_paths, is_dts, strip_ext,
  resolve_internal, reclassify, path_maps,
}
use code_intelegence.Workflow.Imports.Known.{
  KeepsElements, contains-registered, contains-exact_known, in_stems, reclassify_internal,
}
use code_intelegence.Workflow.Imports.Stems.{
  has_implementation, no_paths-Keyed, register_paths-Keyed, register_paths-has_implementation,
}

resolve_internal_stem :
    (m : PathMaps) (imp : Import) (v : String)
    → imp.import_type ≡ "INTERNAL"
    → (imp.target_file_path == "") ≡ false
    → contains imp.target_file_path m.exact ≡ false
    → lookup imp.target_file_path m.stem_map ≡ some v
    → resolve_internal m imp ≡ record imp { target_file_path = v }
unfolding resolve_internal
resolve_internal_stem m imp v internal named unknown found =
    let typed : (imp.import_type == "INTERNAL") ≡ true = rw internal refl in
    rw (typed, named, unknown, found) refl

-- What an import becomes in the two loops.
abbrev pub resolved :
    PathLibrary → List ImportingFile → List String → String → String → Import → Import
resolved lib files all_paths language go_module_path imp =
    let m = path_maps lib files all_paths in
    reclassify lib m language go_module_path (resolve_internal m imp)

module _ (lib : PathLibrary) (sorts : KeepsElements lib.sort) (files : List ImportingFile)
    (all_paths : List String) where
  -- If sorting keeps the elements, an import is internal with a target that is no path of the
  -- project, and an implementation file of the project has the target as its stem, then the
  -- import is given an implementation file of the project with that stem, and its other fields
  -- stay.
  pub implementation_preferred :
      (language go_module_path : String) (imp : Import) (fp : String)
      → imp.import_type ≡ "INTERNAL"
      → (imp.target_file_path == "") ≡ false
      → contains imp.target_file_path (project_paths files all_paths) ≡ false
      → contains fp (project_paths files all_paths) ≡ true
      → is_dts lib fp ≡ false
      → strip_ext lib fp ≡ imp.target_file_path
      → (v : String) × (resolved lib files all_paths language go_module_path imp
          ≡ record imp { target_file_path = v })
        × (contains v (project_paths files all_paths) ≡ true)
        × (is_dts lib v ≡ false)
        × (strip_ext lib v ≡ imp.target_file_path)
  unfolding path_maps resolve_internal
  implementation_preferred language go_module_path imp fp internal named unknown listed code stem =
      let m = path_maps lib files all_paths in
      let target = imp.target_file_path in
      let paths = lib.sort (collect [] (project_paths files all_paths)) in
      let stemmed : (strip_ext lib fp == fp) ≡ false = rw stem (elim (Bool-cases (target == fp)) [
        | inl same ↦
            let unlisted : contains fp (project_paths files all_paths) ≡ false =
              subst (λ p. contains p (project_paths files all_paths) ≡ false)
                (eq_of_== target fp same) unknown in
            absurd (ground arith)
        | inr other ↦ other
      ]) in
      let implemented : has_implementation lib target m.stem_map ≡ true =
        subst (λ t. has_implementation lib t m.stem_map ≡ true) stem
          (register_paths-has_implementation lib fp paths no_paths
            (contains-registered lib sorts files all_paths fp ∙ listed) code stemmed) in
      elim (Option-cases (lookup target m.stem_map)) [
        | inl missing ↦ absurd (ground (arith, missing, implemented))
        | inr (v, found) ↦
            let fitting =
              register_paths-Keyed lib paths no_paths (no_paths-Keyed lib) target v found in
            let declared : is_dts lib v ≡ false = ground (arith, found, implemented) in
            let written : resolve_internal m imp ≡ record imp { target_file_path = v } =
              resolve_internal_stem m imp v internal named
                (contains-exact_known lib sorts files all_paths target ∙ unknown) found in
            (
              v,
              ap (reclassify lib m language go_module_path) written
                  ∙ reclassify_internal lib sorts files all_paths language go_module_path
                      (record imp { target_file_path = v }) internal,
              in_stems lib sorts files all_paths target v found,
              declared,
              eq_of_== (strip_ext lib v) target (ground (arith, fitting, declared)),
            )
      ]
