-- ===== src/Clients/Python.antt =====
-- clients/pyright.py, clients/basedpyright.py, clients/ty.py and clients/pyrefly.py: the clients for Python.
use lsp_client.Base.{[], ◌∷◌}
use lsp_client.Config.{Fields, text, object, end, field}
use lsp_client.Capability.{enabled}
use lsp_client.Capability.Notify.{
  with_notify_text_document_synchronize, with_notify_did_change_configuration,
  with_notify_did_create_files, with_notify_did_rename_files, with_notify_did_delete_files,
}
use lsp_client.Capability.Request.{
  with_request_call_hierarchy, with_request_declaration, with_request_definition,
  with_request_document_symbol, with_request_hover, with_request_references,
  with_request_signature_help, with_request_type_definition, with_request_workspace_symbol,
  with_request_inlay_hint, with_document_diagnostic, with_workspace_diagnostic,
  with_request_implementation,
}
use lsp_client.Capability.Edits.{
  with_request_code_action, with_request_completion, with_request_rename,
  with_request_will_create_files, with_request_will_rename_files, with_request_will_delete_files,
}
use lsp_client.Capability.Receive.{
  with_receive_log_message, with_receive_log_trace, with_receive_publish_diagnostics,
  with_receive_show_message,
}
use lsp_client.Capability.Respond.{
  with_respond_register_capability, with_respond_configuration_request,
  with_respond_inlay_hint_refresh, with_respond_show_document_request,
  with_respond_show_message_request, with_respond_workspace_folders_request,
}
use lsp_client.Clients.{ClientClass, python_language}

abbrev pub pyright_config : Fields
pyright_config =
    field "python"
      (object (
        field "analysis"
          (object (
            field "autoImportCompletions" enabled (
              field "autoSearchPaths" enabled (
                field "diagnosticMode" (text "openFilesOnly") (
                  field "indexing" enabled (
                    field "typeCheckingMode" (text "basic") (
                      field "inlayHints"
                        (object (
                          field "variableTypes" enabled (
                            field "functionReturnTypes" enabled (
                              field "callArgumentNames" enabled
                                (field "pytestParameters" enabled end)))))
                        end)))))))
          end))
      end

abbrev pub pyright_client : ClientClass
pyright_client = record {
  program = "pyright-langserver";
  args = "--stdio" ∷ [];
  language_config = python_language;
  mixins =
      with_notify_text_document_synchronize ∷ with_notify_did_change_configuration
      ∷ with_notify_did_create_files ∷ with_notify_did_rename_files ∷ with_notify_did_delete_files
      ∷ with_request_call_hierarchy ∷ with_request_code_action ∷ with_request_completion
      ∷ with_request_declaration ∷ with_request_definition ∷ with_request_document_symbol
      ∷ with_request_hover ∷ with_request_references ∷ with_request_rename
      ∷ with_request_signature_help ∷ with_request_type_definition ∷ with_request_will_create_files
      ∷ with_request_will_rename_files ∷ with_request_will_delete_files
      ∷ with_request_workspace_symbol ∷ with_receive_log_message ∷ with_receive_log_trace
      ∷ with_receive_publish_diagnostics ∷ with_respond_register_capability
      ∷ with_receive_show_message ∷ with_respond_configuration_request
      ∷ with_respond_inlay_hint_refresh ∷ with_respond_show_document_request
      ∷ with_respond_show_message_request ∷ with_respond_workspace_folders_request ∷ [];
  default_config = pyright_config;
}

abbrev pub basedpyright_config : Fields
basedpyright_config =
    field "python"
      (object (
        field "analysis"
          (object (
            field "autoImportCompletions" enabled (
              field "autoSearchPaths" enabled (
                field "diagnosticMode" (text "openFilesOnly") (
                  field "indexing" enabled (
                    field "typeCheckingMode" (text "recommended") (
                      field "inlayHints"
                        (object (
                          field "variableTypes" enabled (
                            field "functionReturnTypes" enabled (
                              field "callArgumentNames" enabled
                                (field "pytestParameters" enabled end)))))
                        end)))))))
          end))
      (field "basedpyright"
        (object (
          field "analysis"
            (object (
              field "autoImportCompletions" enabled (
                field "autoSearchPaths" enabled (
                  field "diagnosticMode" (text "openFilesOnly") (
                    field "indexing" enabled (
                      field "typeCheckingMode" (text "recommended") (
                        field "inlayHints"
                          (object (
                            field "variableTypes" enabled (
                              field "functionReturnTypes" enabled (
                                field "callArgumentNames" enabled
                                  (field "pytestParameters" enabled end)))))
                          end)))))))
            end))
        end)

abbrev pub basedpyright_client : ClientClass
basedpyright_client = record {
  program = "basedpyright-langserver";
  args = "--stdio" ∷ [];
  language_config = python_language;
  mixins =
      with_notify_text_document_synchronize ∷ with_notify_did_change_configuration
      ∷ with_notify_did_create_files ∷ with_notify_did_rename_files ∷ with_notify_did_delete_files
      ∷ with_request_call_hierarchy ∷ with_request_code_action ∷ with_request_completion
      ∷ with_request_declaration ∷ with_request_definition ∷ with_request_document_symbol
      ∷ with_request_hover ∷ with_request_references ∷ with_request_rename
      ∷ with_request_signature_help ∷ with_request_type_definition ∷ with_request_will_create_files
      ∷ with_request_will_rename_files ∷ with_request_will_delete_files
      ∷ with_request_workspace_symbol ∷ with_receive_log_message ∷ with_receive_log_trace
      ∷ with_receive_publish_diagnostics ∷ with_respond_register_capability
      ∷ with_receive_show_message ∷ with_respond_configuration_request
      ∷ with_respond_inlay_hint_refresh ∷ with_respond_show_document_request
      ∷ with_respond_show_message_request ∷ with_respond_workspace_folders_request ∷ [];
  default_config = basedpyright_config;
}

abbrev pub ty_config : Fields
ty_config = field "ty" (object (field "diagnostics" enabled (field "completion" enabled end))) end

abbrev pub ty_client : ClientClass
ty_client = record {
  program = "ty";
  args = "server" ∷ [];
  language_config = python_language;
  mixins =
      with_notify_text_document_synchronize ∷ with_notify_did_change_configuration
      ∷ with_request_code_action ∷ with_request_completion ∷ with_request_declaration
      ∷ with_request_definition ∷ with_request_document_symbol ∷ with_request_hover
      ∷ with_request_inlay_hint ∷ with_document_diagnostic ∷ with_request_references
      ∷ with_request_signature_help ∷ with_request_type_definition ∷ with_workspace_diagnostic
      ∷ with_request_workspace_symbol ∷ with_receive_log_message ∷ with_receive_log_trace
      ∷ with_receive_publish_diagnostics ∷ with_respond_register_capability
      ∷ with_receive_show_message ∷ with_respond_configuration_request
      ∷ with_respond_inlay_hint_refresh ∷ with_respond_show_document_request
      ∷ with_respond_show_message_request ∷ with_respond_workspace_folders_request ∷ [];
  default_config = ty_config;
}

abbrev pub pyrefly_config : Fields
pyrefly_config =
    field "pyrefly"
      (object (
        field "inlayHints"
          (object (
            field "variableTypes" enabled
              (field "functionReturnTypes" enabled (field "parameterTypes" enabled end))))
          (field "diagnostics" (object (field "enable" enabled end))
            (field "completion" (object (field "autoImports" enabled end)) end))))
      end

abbrev pub pyrefly_client : ClientClass
pyrefly_client = record {
  program = "pyrefly";
  args = "lsp" ∷ [];
  language_config = python_language;
  mixins =
      with_notify_text_document_synchronize ∷ with_notify_did_change_configuration
      ∷ with_request_call_hierarchy ∷ with_request_code_action ∷ with_request_completion
      ∷ with_request_declaration ∷ with_request_definition ∷ with_request_document_symbol
      ∷ with_request_hover ∷ with_request_implementation ∷ with_request_inlay_hint
      ∷ with_request_references ∷ with_request_signature_help ∷ with_request_type_definition
      ∷ with_request_workspace_symbol ∷ with_receive_log_message ∷ with_receive_log_trace
      ∷ with_receive_publish_diagnostics ∷ with_respond_register_capability
      ∷ with_receive_show_message ∷ with_respond_configuration_request
      ∷ with_respond_inlay_hint_refresh ∷ with_respond_show_document_request
      ∷ with_respond_show_message_request ∷ with_respond_workspace_folders_request ∷ [];
  default_config = pyrefly_config;
}
