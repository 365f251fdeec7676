-- ===== src/Requests/Files.antt =====
-- will_create_files.py, will_rename_files.py and will_delete_files.py of capability/request/, and
-- did_create_files.py, did_rename_files.py and did_delete_files.py of capability/notification/.
use lsp_client.Base.{String, Option, List, map}
use lsp_client.Host.{Host}
use lsp_client.Client.{Settings, Action}
use lsp_client.WorkspaceEdit.{WorkspaceEdit}

pub record FileRename : Type 0 where
  pub old_uri : String
  pub new_uri : String

abbrev pub file_rename : String × String → FileRename
file_rename (old, new) = record { old_uri = old; new_uri = new }

-- `FileCreate` and `FileDelete`
pub record FileUri : Type 0 where
  pub uri : String

abbrev pub file_uri : String → FileUri
file_uri uri = record { uri = uri }

module _ (h : Host) (c : Settings) where
  unfoldable pub request_will_rename_files :
      (List FileRename → Action h c (Option WorkspaceEdit))
      → List (String × String)
      → Action h c (Option WorkspaceEdit)
  request_will_rename_files ask file_renames = ask (map file_rename file_renames)

  unfoldable pub request_will_create_files :
      (List FileUri → Action h c (Option WorkspaceEdit))
      → List String
      → Action h c (Option WorkspaceEdit)
  request_will_create_files ask uris = ask (map file_uri uris)

  unfoldable pub request_will_delete_files :
      (List FileUri → Action h c (Option WorkspaceEdit))
      → List String
      → Action h c (Option WorkspaceEdit)
  request_will_delete_files ask uris = ask (map file_uri uris)

  unfoldable pub notify_did_rename_files :
      (List FileRename → Action h c (Unit {0})) → List (String × String) → Action h c (Unit {0})
  notify_did_rename_files send file_renames = send (map file_rename file_renames)

  unfoldable pub notify_did_create_files :
      (List FileUri → Action h c (Unit {0})) → List String → Action h c (Unit {0})
  notify_did_create_files send uris = send (map file_uri uris)

  unfoldable pub notify_did_delete_files :
      (List FileUri → Action h c (Unit {0})) → List String → Action h c (Unit {0})
  notify_did_delete_files send uris = send (map file_uri uris)
