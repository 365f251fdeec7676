-- ===== src/Lang.antt =====
-- protocol/lang.py, and `find_client` of clients/lang.py: the project that a path belongs to, and
-- the language whose client serves it. The calls on paths are parameters.
pub mod Nearest
pub mod Tests
use lsp_client.Base.{
  ℕ, String, Bool, true, false, not, Option, none, some, List, [], ◌∷◌, if◌then◌else◌,
}

pub record LanguageConfig : Type 0 where
  pub kind : String
  pub suffixes : List String
  pub project_files : List String
  pub exclude_files : List String

-- What is asked of a path; `has` tells whether a glob pattern finds something in it.
pub record Paths : Type 1 where
  pub FilePath : Type 0
  pub is_file : FilePath → Bool
  pub is_dir : FilePath → Bool
  pub name_ends_with : String → FilePath → Bool
  pub parent : FilePath → FilePath
  pub parents : FilePath → List FilePath
  pub has : FilePath → String → Bool

abbrev pub any_of : {A : Type 0} → (A → Bool) → List A → Bool
any_of f [] = false
any_of f (x ∷ xs) = if f x then true else any_of f xs

module _ (h : Paths) where
  unfoldable pub is_project_root : LanguageConfig → h.FilePath → Bool
  is_project_root c path =
      if not (h.is_dir path)
      then false
      else if any_of (h.has path) c.exclude_files
      then false
      else any_of (h.has path) c.project_files

  -- The loop over `[path, *path.parents]`.
  unfoldable pub first_root : LanguageConfig → List h.FilePath → Option h.FilePath
  first_root c [] = none
  first_root c (p ∷ ps) = if is_project_root c p then some p else first_root c ps

  -- The directories to look at, for a file with one of the suffixes and for a directory.
  unfoldable pub search_from : LanguageConfig → h.FilePath → List h.FilePath
  search_from c path =
      if h.is_file path
      then (if any_of (λ suffix. h.name_ends_with suffix path) c.suffixes
          then h.parent path ∷ h.parents (h.parent path)
          else [])
      else path ∷ h.parents path

  unfoldable pub find_project_root : LanguageConfig → h.FilePath → Option h.FilePath
  unfolding first_root search_from
  find_project_root c path = first_root c (search_from c path)

  -- The clients are known by their configurations, in the order of `lang_clients`.
  unfoldable pub find_client :
      List LanguageConfig → h.FilePath → Option (LanguageConfig × h.FilePath)
  find_client [] path = none
  find_client (c ∷ cs) path = elim (find_project_root c path) [
    | some root ↦ some (c, root)
    | none ↦ find_client cs path
  ]
