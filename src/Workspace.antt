-- ===== src/Workspace.antt =====
-- utils/workspace.py, and `as_uri` and `from_uri` of protocol/client.py.
pub mod Convert
pub mod Tests
use lsp_client.Base.{
  ℕ, String, Bool, true, false, ◌&&◌, ◌||◌, not, Option, none, some, List, [], ◌∷◌, map, ◌==◌,
  if◌then◌else◌, length, is_some, str_eq,
}
use lsp_client.Base.Dict.{Dict, lookup, member}
use lsp_client.Base.Exec.{Result, ok, err}
use lsp_client.Host.{Host, Error, value_error, key_error, index_error, from_local_uri}

pub record WorkspaceFolder : Type 0 where
  pub uri : String
  pub name : String

abbrev pub Workspace : Type 0
Workspace = Dict WorkspaceFolder

abbrev pub workspace_root_dir : String
workspace_root_dir = "__root__"

-- `list(self.values())`
unfoldable pub to_folders : Workspace → List WorkspaceFolder
to_folders = map (λ e. e.1)

module _ (h : Host) where
  open h use {
    FilePath, is_absolute, is_relative_to, relative_to, join, parts, from_parts, resolve,
    as_file_uri,
  }

  -- the cached property `WorkspaceFolder.path`
  abbrev pub path : WorkspaceFolder → FilePath
  path folder = from_local_uri h folder.uri

  unfoldable pub get_root_path : Workspace → Option FilePath
  get_root_path ws = elim (lookup workspace_root_dir ws) [
    | none ↦ none
    | some folder ↦ some (path folder)
  ]

  pub data RawWorkspace : Type 0 where
    root_folder : FilePath → RawWorkspace
    workspace : Workspace → RawWorkspace
    mapping : Dict FilePath → RawWorkspace

  format_mapping : Dict FilePath → Workspace
  format_mapping [] = []
  format_mapping ((name, p) ∷ rest) =
      (name, record { uri = as_file_uri (resolve p); name = name }) ∷ format_mapping rest

  unfoldable pub format_workspace : RawWorkspace → Workspace
  unfolding format_mapping
  format_workspace (root_folder p) =
      (workspace_root_dir, record { uri = as_file_uri (resolve p); name = "root" }) ∷ []
  format_workspace (workspace ws) = ws
  format_workspace (mapping m) = format_mapping m

  -- `any(file_path.is_relative_to(folder.path) for folder in workspace.values())`
  unfoldable pub in_workspace : FilePath → Workspace → Bool
  in_workspace p [] = false
  in_workspace p ((name, folder) ∷ ws) = is_relative_to p (path folder) || in_workspace p ws

  abbrev join_uri : FilePath → Option WorkspaceFolder → Error → Result Error String
  join_uri p none e = err e
  join_uri p (some folder) e = ok (as_file_uri (join (path folder) p))

  abbrev pub multi_root_uri : List String → Workspace → Result Error String
  multi_root_uri [] ws = err index_error
  multi_root_uri (root ∷ rest) ws = join_uri (from_parts rest) (lookup root ws) value_error

  unfoldable pub as_uri : Workspace → FilePath → Result Error String
  unfolding in_workspace
  as_uri ws file_path =
      if is_absolute file_path
      then (if in_workspace file_path ws then ok (as_file_uri file_path) else err value_error)
      else if length ws == 1
      then join_uri file_path (lookup workspace_root_dir ws) key_error
      else multi_root_uri (parts file_path) ws

  -- `Path(name) / path.relative_to(folder.path)` for the first folder that the path is in
  unfoldable pub relative_in : FilePath → Workspace → FilePath
  relative_in p [] = p
  relative_in p ((name, folder) ∷ ws) =
      if is_relative_to p (path folder)
      then join (from_parts (name ∷ [])) (relative_to p (path folder))
      else relative_in p ws

  abbrev relative_to_root : FilePath → WorkspaceFolder → FilePath
  relative_to_root p folder =
      if is_relative_to p (path folder) then relative_to p (path folder) else p

  unfoldable pub from_uri : Workspace → String → Bool → FilePath
  unfolding relative_in
  from_uri ws uri relative =
      let p = from_local_uri h uri in
      if relative
      then (if length ws == 1 && member workspace_root_dir ws
          then elim (lookup workspace_root_dir ws) [
            | none ↦ p
            | some folder ↦ relative_to_root p folder
          ]
          else relative_in p ws)
      else p
