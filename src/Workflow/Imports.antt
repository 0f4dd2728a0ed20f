-- ===== src/Workflow/Imports.antt =====
-- backend-worker/internal/indexing/resolve.go: from the targets of a file's imports to the paths of
-- the project's files.
pub mod Registered
pub mod Known
pub mod Stems
pub mod Preferred
use Prim.Native.Nat.{◌-◌}
use Prim.Native.String.{◌++◌ as ◌<>◌, len, slice}
use text.Mathlib.Text.{starts_with}
use code_intelegence.Base.{
  String, Bool, true, false, not, ◌&&◌, ◌||◌, Option, none, some, List, [], ◌∷◌, ◌++◌, ◌==◌,
  contains, lookup, insert, if◌then◌else◌,
}

-- The functions of `path`, `sort` and `strings` that are called: path.Ext, path.Base, path.Dir,
-- sort.Strings, strings.HasSuffix, strings.TrimPrefix and strings.ReplaceAll.
pub record PathLibrary : Type 0 where
  pub ext : String → String
  pub base : String → String
  pub dir : String → String
  pub sort : List String → List String
  pub has_suffix : String → String → Bool
  pub trim_prefix : String → String → String
  pub replace_all : String → String → String → String

-- parser.Import
pub record Import : Type 0 where
  pub source_symbol_id : String
  pub source_file_path : String
  pub target_file_path : String
  pub import_name : String
  pub import_type : String
  pub package_name : String
  pub package_version : String

-- parser.ParsedFileResult, with the fields that are read or written here.
pub record ImportingFile : Type 0 where
  pub file_path : String
  pub language : String
  pub imports : List Import

-- The maps that `registerPath` fills.
pub record PathMaps : Type 0 where
  pub exact : List String
  pub stem_map : List (String × String)
  pub dir_index : List (String × String)
  pub go_dir : List (String × String)

abbrev pub no_paths : PathMaps
no_paths = record { exact = []; stem_map = []; dir_index = []; go_dir = [] }

abbrev pub index_file_names : List (String × List String)
index_file_names =
    ("index", ".ts" ∷ ".tsx" ∷ ".js" ∷ ".jsx" ∷ ".mjs" ∷ ".cjs" ∷ [])
    ∷ ("__init__", ".py" ∷ [])
    ∷ ("mod", ".rs" ∷ [])
    ∷ []

-- if _, exists := m[k]; !exists { m[k] = fp }
unfoldable pub add_first : String → String → List (String × String) → List (String × String)
add_first k fp m = elim (lookup k m) [ some existing ↦ m | none ↦ insert k fp m ]

-- The paths of allPaths and of the files, without those seen before.
unfoldable pub collect : List String → List String → List String
collect seen [] = []
collect seen (p ∷ paths) = elim (contains p seen) [
  | true ↦ collect seen paths
  | false ↦ p ∷ collect (p ∷ seen) paths
]

abbrev pub file_paths : List ImportingFile → List String
file_paths [] = []
file_paths (f ∷ files) = f.file_path ∷ file_paths files

-- One of the two loops over all imports.
abbrev pub map_imports : (Import → Import) → List Import → List Import
map_imports f [] = []
map_imports f (i ∷ imports) = f i ∷ map_imports f imports

abbrev pub each_file : (ImportingFile → Import → Import) → List ImportingFile → List ImportingFile
each_file step [] = []
each_file step (f ∷ files) =
    record f { imports = map_imports (step f) f.imports } ∷ each_file step files

-- The first loop's body.
unfoldable pub resolve_internal : PathMaps → Import → Import
resolve_internal m imp =
    if not (imp.import_type == "INTERNAL")
      || imp.target_file_path == ""
      || contains imp.target_file_path m.exact
    then imp
    else (elim (lookup imp.target_file_path m.stem_map) [
      | some resolved ↦ record imp { target_file_path = resolved }
      | none ↦ elim (lookup imp.target_file_path m.dir_index) [
        | some resolved ↦ record imp { target_file_path = resolved }
        | none ↦ imp
      ]
    ])

-- Where a candidate is found: itself, as a stem, as a directory, as a Go package.
unfoldable pub find_candidate : PathMaps → String → String → Option String
find_candidate m language candidate =
    if contains candidate m.exact then some candidate else (elim (lookup candidate m.stem_map) [
      | some resolved ↦ some resolved
      | none ↦ elim (lookup candidate m.dir_index) [
        | some resolved ↦ some resolved
        | none ↦ if language == "go" then lookup candidate m.go_dir else none
      ]
    ])

abbrev pub project_paths : List ImportingFile → List String → List String
project_paths files all_paths = all_paths ++ file_paths files

module _ (lib : PathLibrary) where
  unfoldable pub is_dts : String → Bool
  is_dts fp = lib.has_suffix fp ".d.ts"

  unfoldable pub strip_ext : String → String
  strip_ext p = if lib.ext p == "" then p else slice p 0 (len p - len (lib.ext p))

  -- if existing, exists := m[k]; !exists || isDTS(existing) { m[k] = fp }
  unfoldable pub add_preferred : String → String → List (String × String) → List (String × String)
  unfolding is_dts
  add_preferred k fp m = elim (lookup k m) [
    | some existing ↦ if is_dts existing then insert k fp m else m
    | none ↦ insert k fp m
  ]

  -- What registerPath does to stemMap.
  abbrev pub add_primary : String → List (String × String) → List (String × String)
  add_primary fp m = if strip_ext fp == fp then m else add_preferred (strip_ext fp) fp m

  abbrev pub add_secondary : String → List (String × String) → List (String × String)
  add_secondary fp m =
      let secondary = strip_ext (strip_ext fp) in
      if is_dts fp && not (secondary == strip_ext fp) then add_first secondary fp m else m

  -- What it does to goDir.
  abbrev pub add_go : String → List (String × String) → List (String × String)
  add_go fp m = if lib.has_suffix fp ".go" then add_first (lib.dir fp) fp m else m

  abbrev pub base_stem : String → String
  base_stem fp = let stem = strip_ext (lib.base fp) in if is_dts fp then strip_ext stem else stem

  -- The name of an index file, with an extension that this name does not have.
  abbrev pub returns_early : String → Bool
  returns_early fp = elim (lookup (base_stem fp) index_file_names) [
    | none ↦ false
    | some allowed ↦ not (contains (lib.ext fp) allowed)
  ]

  -- What it does to dirIndex.
  abbrev pub add_index : String → List (String × String) → List (String × String)
  add_index fp m = elim (lookup (base_stem fp) index_file_names) [
    | none ↦ m
    | some allowed ↦ if contains (lib.ext fp) allowed then add_preferred (lib.dir fp) fp m else m
  ]

  unfoldable pub register_path : String → PathMaps → PathMaps
  unfolding is_dts strip_ext add_preferred add_first
  register_path fp m = record {
    exact = fp ∷ m.exact;
    stem_map = add_secondary fp (add_primary fp m.stem_map);
    dir_index = add_index fp m.dir_index;
    go_dir = let once = add_go fp m.go_dir in if returns_early fp then once else add_go fp once;
  }

  unfoldable pub register_paths : List String → PathMaps → PathMaps
  unfolding register_path
  register_paths [] m = m
  register_paths (fp ∷ paths) m = register_paths paths (register_path fp m)

  unfoldable pub convert_import_to_path : String → String → String → String
  convert_import_to_path name language go_module_path =
      if language == "go"
      then if go_module_path == "" || not (starts_with name (go_module_path <> "/"))
        then ""
        else lib.trim_prefix name (go_module_path <> "/")
      else if language == "java" || language == "kotlin" || language == "csharp"
      then lib.replace_all name "." "/"
      else if language == "php"
      then lib.replace_all (lib.trim_prefix name "\\") "\\" "/"
      else if language == "python" && not (starts_with name ".")
      then lib.replace_all name "." "/"
      else ""

  -- The second loop's body.
  unfoldable pub reclassify : PathMaps → String → String → Import → Import
  unfolding convert_import_to_path find_candidate
  reclassify m language go_module_path imp =
      let candidate = convert_import_to_path imp.import_name language go_module_path in
      if not (imp.import_type == "EXTERNAL") || not (imp.target_file_path == "") || candidate == ""
      then imp
      else (elim (find_candidate m language candidate) [
        | some resolved ↦ record imp { target_file_path = resolved; import_type = "INTERNAL" }
        | none ↦ imp
      ])

  unfoldable pub path_maps : List ImportingFile → List String → PathMaps
  unfolding collect register_paths
  path_maps files all_paths =
      register_paths (lib.sort (collect [] (project_paths files all_paths))) no_paths

  unfoldable pub resolve_import_targets :
      List ImportingFile → List String → String → List ImportingFile
  unfolding path_maps resolve_internal reclassify
  resolve_import_targets files all_paths go_module_path =
      let m = path_maps files all_paths in
      each_file (λ f. reclassify m f.language go_module_path)
        (each_file (λ f. resolve_internal m) files)
