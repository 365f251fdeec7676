-- ===== src/Capability/Notify.antt =====
-- capability/notification/: what notifies the server.
use lsp_client.Base.{true, [], ◌∷◌}
use lsp_client.Config.{object, end, field}
use lsp_client.Capability.{
  Mixin, overrides, sets, sets_file_operation, enabled, workspace, text_document,
}

abbrev pub with_notify_text_document_synchronize : Mixin
with_notify_text_document_synchronize = record {
  methods = "textDocument/didOpen" ∷ "textDocument/didChange" ∷ "textDocument/didClose" ∷ [];
  registration = overrides text_document true (
      sets "synchronization" (
        object (
          field "will_save" enabled
            (field "will_save_wait_until" enabled (field "did_save" enabled end))))
      ∷ []);
  required = "text_document_sync" ∷ [];
  hooks = [];
}

abbrev pub with_notify_did_change_configuration : Mixin
with_notify_did_change_configuration = record {
  methods = "workspace/didChangeConfiguration" ∷ [];
  registration = overrides workspace true (sets "did_change_configuration" (object end) ∷ []);
  required = [];
  hooks = [];
}

abbrev pub with_notify_did_change_workspace_folders : Mixin
with_notify_did_change_workspace_folders = record {
  methods = "workspace/didChangeWorkspaceFolders" ∷ [];
  registration = overrides workspace true (sets "workspace_folders" enabled ∷ []);
  required = [];
  hooks = [];
}

abbrev pub with_notify_did_create_files : Mixin
with_notify_did_create_files = record {
  methods = "workspace/didCreateFiles" ∷ [];
  registration = overrides workspace true (sets_file_operation "did_create" ∷ []);
  required = [];
  hooks = [];
}

abbrev pub with_notify_did_rename_files : Mixin
with_notify_did_rename_files = record {
  methods = "workspace/didRenameFiles" ∷ [];
  registration = overrides workspace true (sets_file_operation "did_rename" ∷ []);
  required = [];
  hooks = [];
}

abbrev pub with_notify_did_delete_files : Mixin
with_notify_did_delete_files = record {
  methods = "workspace/didDeleteFiles" ∷ [];
  registration = overrides workspace true (sets_file_operation "did_delete" ∷ []);
  required = [];
  hooks = [];
}
