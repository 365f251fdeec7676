-- ===== src/Requests/Rename.antt =====
-- capability/request/rename.py.
use lsp_client.Base.{String, Bool, true, false, Option, none, some}
use lsp_client.Base.Exec.{◌>>=◌, ◌>>◌, pure}
use lsp_client.Host.{Host}
use lsp_client.Lsp.{Position}
use lsp_client.Client.{Settings, Action}
use lsp_client.WorkspaceEdit.{WorkspaceEdit, apply_workspace_edit}
use lsp_client.Requests.{TextDocumentPosition, at_position}

pub record RenameParams : Type 0 where
  pub at : TextDocumentPosition
  pub new_name : String

module _ (h : Host) (c : Settings) where
  unfoldable pub request_prepare_rename :
      {A : Type 0}
      → (TextDocumentPosition → Action h c (Option A))
      → h.FilePath
      → Position
      → Action h c (Option A)
  unfolding at_position
  request_prepare_rename ask = at_position h c ask

  module _ (ask : RenameParams → Action h c (Option WorkspaceEdit)) where
    unfoldable pub request_rename_edits :
        h.FilePath → Position → String → Action h c (Option WorkspaceEdit)
    unfolding at_position
    request_rename_edits file_path position new_name =
        at_position h c (λ at. ask (record { at = at; new_name = new_name })) file_path position

    unfoldable pub apply_rename : Option WorkspaceEdit → Action h c Bool
    unfolding apply_workspace_edit ◌>>=◌
    apply_rename none = pure false
    apply_rename (some edit) = do apply_workspace_edit h c edit; pure true

    unfoldable pub request_rename : h.FilePath → Position → String → Action h c Bool
    unfolding at_position apply_rename ◌>>=◌
    request_rename file_path position new_name =
        at_position h c
          (λ at. do
            workspace_edit ← ask (record { at = at; new_name = new_name })
            apply_rename workspace_edit)
          file_path position
