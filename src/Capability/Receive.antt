-- ===== src/Capability/Receive.antt =====
-- capability/server_notification/: what receives the notifications of the server.
use lsp_client.Base.{true, [], ◌∷◌}
use lsp_client.Config.{text, object, end, field}
use lsp_client.Hooks.{notification_hook}
use lsp_client.Capability.{Mixin, overrides, sets, enabled, text_document, window}

abbrev pub with_receive_log_message : Mixin
with_receive_log_message = record {
  methods = "window/logMessage" ∷ [];
  registration = overrides window true ([]);
  required = [];
  hooks = ("window/logMessage", notification_hook "receive_log_message") ∷ [];
}

abbrev pub with_receive_log_trace : Mixin
with_receive_log_trace = record {
  methods = "$/logTrace" ∷ [];
  registration = overrides window true ([]);
  required = [];
  hooks = ("$/logTrace", notification_hook "receive_log_trace") ∷ [];
}

abbrev pub with_receive_publish_diagnostics : Mixin
with_receive_publish_diagnostics = record {
  methods = "textDocument/publishDiagnostics" ∷ [];
  registration = overrides text_document true (
      sets "diagnostic" (
        object (
          field "related_document_support" enabled (
            field "related_information" enabled (
              field "tag_support" (object (field "value_set" (text "DiagnosticTag") end))
                (field "code_description_support" enabled (field "data_support" enabled end))))))
      ∷ []);
  required = [];
  hooks = ("textDocument/publishDiagnostics", notification_hook "receive_publish_diagnostics") ∷ [];
}

abbrev pub with_receive_show_message : Mixin
with_receive_show_message = record {
  methods = "window/showMessage" ∷ [];
  registration = overrides window true (
      sets "show_message" (
        object (
          field "message_action_item" (object (field "additional_properties_support" enabled end))
            end))
      ∷ []);
  required = [];
  hooks = ("window/showMessage", notification_hook "receive_show_message") ∷ [];
}
