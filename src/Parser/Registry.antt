-- ===== src/Parser/Registry.antt =====
-- backend-worker/internal/parser/registry/registry.go: from a file's name to its language. The
-- functions of `strings` and `path/filepath` that it calls are arguments.
use text.Mathlib.Text.{starts_with}
use code_intelegence.Base.{String, ◌||◌, Option, none, some, List, [], ◌∷◌, lookup, if◌then◌else◌}
use code_intelegence.Domain.Errors.{GoError, other, Result, ok, err}

abbrev pub extension_map : List (String × String)
extension_map =
    (".ts", "typescript")
    ∷ (".tsx", "tsx")
    ∷ (".js", "javascript")
    ∷ (".mjs", "javascript")
    ∷ (".cjs", "javascript")
    ∷ (".jsx", "jsx")
    ∷ (".py", "python")
    ∷ (".pyw", "python")
    ∷ (".pyi", "python")
    ∷ (".go", "go")
    ∷ (".rs", "rust")
    ∷ (".java", "java")
    ∷ (".kt", "kotlin")
    ∷ (".kts", "kotlin")
    ∷ (".c", "c")
    ∷ (".h", "cpp")
    ∷ (".cpp", "cpp")
    ∷ (".cc", "cpp")
    ∷ (".cxx", "cpp")
    ∷ (".hpp", "cpp")
    ∷ (".hxx", "cpp")
    ∷ (".cs", "csharp")
    ∷ (".swift", "swift")
    ∷ (".rb", "ruby")
    ∷ (".rake", "ruby")
    ∷ (".gemspec", "ruby")
    ∷ (".php", "php")
    ∷ (".html", "html")
    ∷ (".htm", "html")
    ∷ (".css", "css")
    ∷ (".scss", "scss")
    ∷ (".json", "json")
    ∷ (".jsonc", "json")
    ∷ (".yaml", "yaml")
    ∷ (".yml", "yaml")
    ∷ (".toml", "toml")
    ∷ (".md", "markdown")
    ∷ (".markdown", "markdown")
    ∷ (".mdx", "markdown")
    ∷ (".xml", "xml")
    ∷ (".svg", "xml")
    ∷ (".xsl", "xml")
    ∷ (".xsd", "xml")
    ∷ (".plist", "xml")
    ∷ (".sh", "bash")
    ∷ (".bash", "bash")
    ∷ (".zsh", "bash")
    ∷ (".dockerfile", "dockerfile")
    ∷ (".sql", "sql")
    ∷ (".graphql", "graphql")
    ∷ (".gql", "graphql")
    ∷ (".tf", "hcl")
    ∷ (".tfvars", "hcl")
    ∷ (".tofu", "hcl")
    ∷ []

abbrev pub basename_map : List (String × String)
basename_map =
    ("Dockerfile", "dockerfile")
    ∷ ("Gemfile", "ruby")
    ∷ ("Rakefile", "ruby")
    ∷ ("Makefile", "bash")
    ∷ (".bashrc", "bash")
    ∷ (".zshrc", "bash")
    ∷ (".bash_profile", "bash")
    ∷ (".profile", "bash")
    ∷ []

unfoldable pub get_language_by_basename : String → Option String
get_language_by_basename basename = lookup basename basename_map

module _ (to_lower : String → String) where
  unfoldable pub get_language_by_extension : String → Option String
  get_language_by_extension ext = lookup (to_lower ext) extension_map

  module _ (base ext : String → String) where
    unfoldable pub detect_language : String → Result GoError String
    detect_language file_path = elim (lookup (base file_path) basename_map) [
      | some lang ↦ ok lang
      | none ↦
          if starts_with (base file_path) "Dockerfile."
            || starts_with (base file_path) "dockerfile."
          then ok "dockerfile"
          else (elim (lookup (to_lower (ext file_path)) extension_map) [
            | some lang ↦ ok lang
            | none ↦ err (other "unsupported language for file")
          ])
    ]
