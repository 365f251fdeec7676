-- ===== src/Capability/Catalogue.antt =====
-- `capabilities` of the packages capability.request, capability.notification,
-- capability.server_request and capability.server_notification.
use lsp_client.Base.{List, [], ◌∷◌, ◌++◌}
use lsp_client.Capability.{Mixin}
use lsp_client.Capability.Request.{
  with_request_call_hierarchy, with_request_declaration, with_request_definition,
  with_request_document_symbol, with_request_hover, with_request_implementation,
  with_request_inlay_hint, with_request_inline_value, with_document_diagnostic,
  with_request_references, with_request_signature_help, with_request_type_definition,
  with_request_type_hierarchy, with_workspace_diagnostic, with_request_workspace_symbol,
}
use lsp_client.Capability.Edits.{
  with_request_code_action, with_request_completion, with_request_execute_command,
  with_request_rename, with_request_will_create_files, with_request_will_rename_files,
  with_request_will_delete_files,
}
use lsp_client.Capability.Notify.{
  with_notify_did_change_configuration, with_notify_did_change_workspace_folders,
  with_notify_did_create_files, with_notify_did_rename_files, with_notify_did_delete_files,
  with_notify_text_document_synchronize,
}
use lsp_client.Capability.Respond.{
  with_respond_apply_edit, with_respond_configuration_request, with_respond_inlay_hint_refresh,
  with_respond_show_document_request, with_respond_register_capability,
  with_respond_show_message_request, with_respond_workspace_folders_request,
}
use lsp_client.Capability.Receive.{
  with_receive_log_message, with_receive_log_trace, with_receive_publish_diagnostics,
  with_receive_show_message,
}

abbrev pub request_capabilities : List Mixin
request_capabilities =
    with_request_call_hierarchy ∷ with_request_code_action ∷ with_request_completion
    ∷ with_request_declaration ∷ with_request_definition ∷ with_request_document_symbol
    ∷ with_request_execute_command ∷ with_request_hover ∷ with_request_implementation
    ∷ with_request_inlay_hint ∷ with_request_inline_value ∷ with_document_diagnostic
    ∷ with_request_references ∷ with_request_rename ∷ with_request_signature_help
    ∷ with_request_type_definition ∷ with_request_type_hierarchy ∷ with_request_will_create_files
    ∷ with_request_will_rename_files ∷ with_request_will_delete_files ∷ with_workspace_diagnostic
    ∷ with_request_workspace_symbol ∷ []

abbrev pub notification_capabilities : List Mixin
notification_capabilities =
    with_notify_did_change_configuration ∷ with_notify_did_change_workspace_folders
    ∷ with_notify_did_create_files ∷ with_notify_did_rename_files ∷ with_notify_did_delete_files
    ∷ with_notify_text_document_synchronize ∷ []

abbrev pub server_request_capabilities : List Mixin
server_request_capabilities =
    with_respond_apply_edit ∷ with_respond_configuration_request ∷ with_workspace_diagnostic
    ∷ with_respond_inlay_hint_refresh ∷ with_respond_show_document_request
    ∷ with_respond_register_capability ∷ with_respond_show_message_request
    ∷ with_respond_workspace_folders_request ∷ []

abbrev pub server_notification_capabilities : List Mixin
server_notification_capabilities =
    with_receive_log_message ∷ with_receive_log_trace ∷ with_receive_publish_diagnostics
    ∷ with_receive_show_message ∷ []

abbrev pub all_capabilities : List Mixin
all_capabilities =
    request_capabilities
    ++ (notification_capabilities
        ++ (server_request_capabilities ++ server_notification_capabilities))
