-- ===== src/Examples/Imports.antt =====
-- The targets of the imports of a file in a project with a declaration and an implementation.
use code_intelegence.Base.{
  String, ◌≡◌, refl, true, false, ◌&&◌, ◌||◌, List, [], ◌∷◌, ◌==◌, contains, lookup, insert,
  if◌then◌else◌,
}
use code_intelegence.Workflow.Imports.{
  PathLibrary, Import, ImportingFile, project_paths, is_dts, strip_ext, resolve_import_targets,
}
use code_intelegence.Workflow.Imports.Known.{ResolvedFiles, resolve_import_targets-ResolvedFiles}
use code_intelegence.Workflow.Imports.Preferred.{resolved, implementation_preferred}

-- The functions on the paths of this project.
abbrev functions : PathLibrary
functions = record {
  ext = λ p.
      if p == "pkg/a.go" || p == "cmd/main.go"
      then ".go"
      else if p == "src/foo"
      then ""
      else if p == "src/foo.d"
      then ".d"
      else ".ts";
  base = λ p. "foo.ts";
  dir = λ p. if p == "pkg/a.go" then "pkg" else if p == "cmd/main.go" then "cmd" else "src";
  sort = λ paths. paths;
  has_suffix = λ p s.
      ((p == "pkg/a.go" || p == "cmd/main.go") && s == ".go")
      || (p == "src/foo.d.ts" && s == ".d.ts");
  trim_prefix = λ p prefix. if p == "m/pkg" then "pkg" else p;
  replace_all = λ p old new. p;
}

abbrev import : String → String → String → Import
import name type target = record {
  source_symbol_id = "";
  source_file_path = "src/app.ts";
  target_file_path = target;
  import_name = name;
  import_type = type;
  package_name = "";
  package_version = "";
}

abbrev app : ImportingFile
app = record {
  file_path = "src/app.ts";
  language = "typescript";
  imports =
      import "./foo" "INTERNAL" "src/foo"
      ∷ import "react" "EXTERNAL" ""
      ∷ import "./foo.d.ts" "INTERNAL" "src/foo.d.ts"
      ∷ [];
}

abbrev server : ImportingFile
server = record {
  file_path = "cmd/main.go";
  language = "go";
  imports = import "m/pkg" "EXTERNAL" "" ∷ import "fmt" "STDLIB" "" ∷ [];
}

abbrev paths : List String
paths = "pkg/a.go" ∷ "src/foo.d.ts" ∷ "src/foo.ts" ∷ []

-- The implementation replaces the declaration at their stem, and the Go package is found.
targets_resolved :
    resolve_import_targets functions (app ∷ server ∷ []) paths "m"
    ≡ record app {
      imports =
          import "./foo" "INTERNAL" "src/foo.ts"
          ∷ import "react" "EXTERNAL" ""
          ∷ import "./foo.d.ts" "INTERNAL" "src/foo.d.ts"
          ∷ [];
    }
      ∷ record server {
        imports = import "m/pkg" "INTERNAL" "pkg/a.go" ∷ import "fmt" "STDLIB" "" ∷ [];
      }
      ∷ []
unfolding resolve_import_targets lookup insert
targets_resolved = refl

resolve_import_targets-ResolvedFiles_example :
    ResolvedFiles
      (project_paths (app ∷ server ∷ []) paths)
      (app ∷ server ∷ [])
      (resolve_import_targets functions (app ∷ server ∷ []) paths "m")
resolve_import_targets-ResolvedFiles_example =
    resolve_import_targets-ResolvedFiles functions (λ p xs. refl) (app ∷ server ∷ []) paths "m"

is_code : is_dts functions "src/foo.ts" ≡ false
unfolding is_dts
is_code = refl

stem_of : strip_ext functions "src/foo.ts" ≡ "src/foo"
unfolding strip_ext
stem_of = refl

implementation_preferred_example :
    (v : String) × (resolved functions
        (app ∷ server ∷ [])
        paths
        "typescript"
        "m"
        (import "./foo" "INTERNAL" "src/foo")
      ≡ import "./foo" "INTERNAL" v)
    × (contains v (project_paths (app ∷ server ∷ []) paths) ≡ true)
    × (is_dts functions v ≡ false)
    × (strip_ext functions v ≡ "src/foo")
implementation_preferred_example =
    implementation_preferred functions (λ p xs. refl) (app ∷ server ∷ []) paths "typescript" "m"
      (import "./foo" "INTERNAL" "src/foo") "src/foo.ts" refl refl refl refl is_code stem_of
