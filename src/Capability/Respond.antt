-- ===== src/Capability/Respond.antt =====
-- capability/server_request/: what answers the server.
use lsp_client.Base.{true, [], ◌∷◌}
use lsp_client.Config.{text, object, end, field}
use lsp_client.Hooks.{request_hook}
use lsp_client.Capability.{Mixin, inherits, overrides, sets, enabled, strings, workspace, window}

abbrev pub with_respond_apply_edit : Mixin
with_respond_apply_edit = record {
  methods = "workspace/applyEdit" ∷ [];
  registration = overrides workspace true (
      sets "apply_edit" enabled
      ∷ sets "workspace_edit" (
          object (
            field "document_changes" enabled (
              field "resource_operations" (strings ("create" ∷ "rename" ∷ "delete" ∷ []))
                (field "failure_handling" (text "undo") end))))
      ∷ []);
  required = [];
  hooks = ("workspace/applyEdit", request_hook "respond_apply_edit") ∷ [];
}

abbrev pub with_respond_configuration_request : Mixin
with_respond_configuration_request = record {
  methods = "workspace/configuration" ∷ [];
  registration = overrides workspace true (sets "configuration" enabled ∷ []);
  required = [];
  hooks = ("workspace/configuration", request_hook "respond_configuration_request") ∷ [];
}

abbrev pub with_respond_inlay_hint_refresh : Mixin
with_respond_inlay_hint_refresh = record {
  methods = "workspace/inlayHint/refresh" ∷ [];
  registration =
      overrides workspace true
        (sets "inlay_hint" (object (field "refresh_support" enabled end)) ∷ []);
  required = [];
  hooks = ("workspace/inlayHint/refresh", request_hook "respond_inlay_hint_refresh") ∷ [];
}

abbrev pub with_respond_register_capability : Mixin
with_respond_register_capability = record {
  methods = "client/registerCapability" ∷ "client/unregisterCapability" ∷ [];
  registration = inherits;
  required = [];
  hooks =
      ("client/registerCapability", request_hook "respond_register_capability")
      ∷ ("client/unregisterCapability", request_hook "respond_unregister_capability")
      ∷ [];
}

abbrev pub with_respond_show_document_request : Mixin
with_respond_show_document_request = record {
  methods = "window/showDocument" ∷ [];
  registration =
      overrides window true (sets "show_document" (object (field "support" enabled end)) ∷ []);
  required = [];
  hooks = ("window/showDocument", request_hook "respond_show_document_request") ∷ [];
}

abbrev pub with_respond_show_message_request : Mixin
with_respond_show_message_request = record {
  methods = "window/showMessageRequest" ∷ [];
  registration = overrides window true (
      sets "show_message" (
        object (
          field "message_action_item" (object (field "additional_properties_support" enabled end))
            end))
      ∷ []);
  required = [];
  hooks = ("window/showMessageRequest", request_hook "respond_show_message_request") ∷ [];
}

abbrev pub with_respond_workspace_folders_request : Mixin
with_respond_workspace_folders_request = record {
  methods = "workspace/workspaceFolders" ∷ [];
  registration = overrides workspace true (sets "workspace_folders" enabled ∷ []);
  required = [];
  hooks = ("workspace/workspaceFolders", request_hook "respond_workspace_folders_request") ∷ [];
}
