-- ===== src/Clients.antt =====
-- clients/: the clients of the language servers. A client is what its class says: how its server is
-- started, its languages, its mixins, and its default configuration.
pub mod Python
pub mod Compiled
pub mod Script
pub mod Known
pub mod Answers
pub mod Tests
use lsp_client.Base.{String, List, [], ◌∷◌}
use lsp_client.Config.{Fields}
use lsp_client.Lang.{LanguageConfig}
use lsp_client.Capability.{Mixin}

pub record ClientClass : Type 0 where
  -- of the local server
  pub program : String
  pub args : List String
  pub language_config : LanguageConfig
  -- In the order of resolution, with those of `Client`: text synchronization comes first, and
  -- dynamic registration after the last mixin for text documents.
  pub mixins : List Mixin
  pub default_config : Fields

abbrev pub python_language : LanguageConfig
python_language = record {
  kind = "python";
  suffixes = ".py" ∷ ".pyi" ∷ [];
  project_files =
      "pyproject.toml" ∷ "setup.py" ∷ "setup.cfg" ∷ "requirements.txt" ∷ ".python-version" ∷ [];
  exclude_files = [];
}

abbrev pub rust_language : LanguageConfig
rust_language = record {
  kind = "rust";
  suffixes = ".rs" ∷ [];
  project_files = "Cargo.toml" ∷ [];
  exclude_files = [];
}

abbrev pub go_language : LanguageConfig
go_language = record {
  kind = "go";
  suffixes = ".go" ∷ [];
  project_files = "go.mod" ∷ [];
  exclude_files = [];
}

abbrev pub typescript_language : LanguageConfig
typescript_language = record {
  kind = "typescript";
  suffixes = ".ts" ∷ ".tsx" ∷ ".js" ∷ ".jsx" ∷ ".mjs" ∷ ".cjs" ∷ [];
  project_files = "package.json" ∷ "tsconfig.json" ∷ "jsconfig.json" ∷ [];
  exclude_files = [];
}

abbrev pub java_language : LanguageConfig
java_language = record {
  kind = "java";
  suffixes = ".java" ∷ [];
  project_files =
      "pom.xml" ∷ "build.gradle" ∷ "build.gradle.kts" ∷ ".project" ∷ "settings.gradle"
      ∷ "settings.gradle.kts" ∷ [];
  exclude_files = [];
}
