-- ===== src/Lang/Tests.antt =====
-- Directories as lists of names, innermost first; "repo" has a project file, and so has "repo/sub".
use lsp_client.Base.{◌≡◌, refl, String, true, ◌&&◌, ◌||◌, none, some, List, [], ◌∷◌, str_eq}
use lsp_client.Lang.{LanguageConfig, Paths, is_project_root, find_project_root}

abbrev above : List String → List (List String)
above [] = []
above (d ∷ ds) = ds ∷ above ds

abbrev outer : List String → List String
outer [] = []
outer (d ∷ ds) = ds

abbrev innermost : List String → String
innermost [] = ""
innermost (d ∷ ds) = d

abbrev disk : Paths
disk = record {
  FilePath = List String;
  is_file = λ p. str_eq (innermost p) "main.go";
  is_dir = λ p. true;
  name_ends_with = λ suffix p. str_eq suffix ".go";
  parent = outer;
  parents = above;
  has = λ p pattern.
      (str_eq (innermost p) "repo" && str_eq pattern "go.mod")
      || (str_eq (innermost p) "sub" && str_eq pattern "pyproject.toml");
}

abbrev go : LanguageConfig
go = record {
  kind = "go";
  suffixes = ".go" ∷ [];
  project_files = "go.mod" ∷ [];
  exclude_files = [];
}

abbrev python : LanguageConfig
python = record {
  kind = "python";
  suffixes = ".py" ∷ [];
  project_files = "pyproject.toml" ∷ [];
  exclude_files = [];
}

abbrev main : List String
main = "main.go" ∷ "sub" ∷ "repo" ∷ []

root_of_main : find_project_root disk go main ≡ some ("repo" ∷ [])
unfolding find_project_root is_project_root
root_of_main = refl

no_python : find_project_root disk python main ≡ none
unfolding find_project_root is_project_root
no_python = refl
