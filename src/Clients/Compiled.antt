-- ===== src/Clients/Compiled.antt =====
-- clients/gopls.py, clients/rust_analyzer.py and clients/jdtls.py: the clients for Go, Rust and Java.
use lsp_client.Base.{[], ◌∷◌}
use lsp_client.Config.{Fields, text, object, end, field}
use lsp_client.Capability.{enabled, strings}
use lsp_client.Capability.Notify.{
  with_notify_text_document_synchronize, with_notify_did_change_configuration,
  with_notify_did_create_files, with_notify_did_rename_files, with_notify_did_delete_files,
}
use lsp_client.Capability.Request.{
  with_request_call_hierarchy, with_request_definition, with_request_document_symbol,
  with_request_hover, with_request_implementation, with_request_inlay_hint, with_request_references,
  with_request_signature_help, with_request_type_definition, with_request_type_hierarchy,
  with_request_workspace_symbol, with_request_declaration, with_document_diagnostic,
  with_workspace_diagnostic,
}
use lsp_client.Capability.Edits.{
  with_request_code_action, with_request_completion, with_request_will_create_files,
  with_request_will_rename_files, with_request_will_delete_files, with_request_rename,
}
use lsp_client.Capability.Receive.{
  with_receive_log_message, with_receive_log_trace, with_receive_publish_diagnostics,
  with_receive_show_message,
}
use lsp_client.Capability.Respond.{
  with_respond_register_capability, with_respond_configuration_request,
  with_respond_inlay_hint_refresh, with_respond_show_document_request,
  with_respond_show_message_request, with_respond_workspace_folders_request,
}
use lsp_client.Clients.{ClientClass, go_language, java_language, rust_language}

abbrev pub gopls_config : Fields
gopls_config =
    field "gopls"
      (object (
        field "hints"
          (object (
            field "assignVariableTypes" enabled (
              field "compositeLiteralFields" enabled (
                field "compositeLiteralTypes" enabled (
                  field "constantValues" enabled (
                    field "functionTypeParameters" enabled (
                      field "parameterNames" enabled (field "rangeVariableTypes" enabled end))))))))
          (field "diagnosticsDelay" (text "100ms") (
            field "matcher" (text "Fuzzy")
              (field "usePlaceholders" enabled (field "semanticTokens" enabled end))))))
      end

abbrev pub gopls_client : ClientClass
gopls_client = record {
  program = "gopls";
  args = "serve" ∷ [];
  language_config = go_language;
  mixins =
      with_notify_text_document_synchronize ∷ with_notify_did_change_configuration
      ∷ with_request_call_hierarchy ∷ with_request_code_action ∷ with_request_completion
      ∷ with_request_definition ∷ with_request_document_symbol ∷ with_request_hover
      ∷ with_request_implementation ∷ with_request_inlay_hint ∷ with_request_references
      ∷ with_request_signature_help ∷ with_request_type_definition ∷ with_request_type_hierarchy
      ∷ with_request_workspace_symbol ∷ with_receive_log_message ∷ with_receive_log_trace
      ∷ with_receive_publish_diagnostics ∷ with_respond_register_capability
      ∷ with_receive_show_message ∷ with_respond_configuration_request
      ∷ with_respond_inlay_hint_refresh ∷ with_respond_show_document_request
      ∷ with_respond_show_message_request ∷ with_respond_workspace_folders_request ∷ [];
  default_config = gopls_config;
}

abbrev pub rust_analyzer_config : Fields
rust_analyzer_config =
    field "rust-analyzer"
      (object (
        field "cargo"
          (object (
            field "buildScripts" (object (field "enable" enabled end))
              (field "features" (text "all") end)))
          (field "checkOnSave" (object (field "enable" enabled end)) (
            field "completion"
              (object (
                field "autoimport" (object (field "enable" enabled end)) (
                  field "callable" (object (field "snippets" (text "fill_arguments") end))
                    (field "postfix" (object (field "enable" enabled end)) end))))
              (field "diagnostics"
                (object (
                  field "enable" enabled
                    (field "experimental" (object (field "enable" enabled end)) end)))
                (field "hover"
                  (object (
                    field "actions"
                      (object (
                        field "enable" enabled
                          (field "references" (object (field "enable" enabled end)) end)))
                      end))
                  (field "inlayHints"
                    (object (
                      field "enable" enabled (
                        field "bindingModeHints" (object (field "enable" enabled end)) (
                          field "closureCaptureHints" (object (field "enable" enabled end)) (
                            field "chainingHints" (object (field "enable" enabled end)) (
                              field "closureReturnTypeHints"
                                (object (field "enable" (text "always") end))
                                (field "lifetimeElisionHints"
                                  (object (field "enable" (text "always") end))
                                  (field "discriminantHints"
                                    (object (field "enable" (text "always") end))
                                    (field "expressionAdjustmentHints"
                                      (object (field "enable" (text "always") end))
                                      (field "parameterHints" (object (field "enable" enabled end))
                                        (field "reborrowHints"
                                          (object (field "enable" (text "always") end))
                                          (field "typeHints" (object (field "enable" enabled end))
                                            end))))))))))))
                    end)))))))
      end

abbrev pub rust_analyzer_client : ClientClass
rust_analyzer_client = record {
  program = "rust-analyzer";
  args = [];
  language_config = rust_language;
  mixins =
      with_notify_text_document_synchronize ∷ with_notify_did_change_configuration
      ∷ with_notify_did_create_files ∷ with_notify_did_rename_files ∷ with_notify_did_delete_files
      ∷ with_request_call_hierarchy ∷ with_request_code_action ∷ with_request_completion
      ∷ with_request_declaration ∷ with_request_definition ∷ with_request_document_symbol
      ∷ with_request_hover ∷ with_request_implementation ∷ with_request_inlay_hint
      ∷ with_document_diagnostic ∷ with_workspace_diagnostic ∷ with_request_references
      ∷ with_request_signature_help ∷ with_request_type_definition ∷ with_request_will_create_files
      ∷ with_request_will_rename_files ∷ with_request_will_delete_files
      ∷ with_request_workspace_symbol ∷ with_receive_log_message ∷ with_receive_log_trace
      ∷ with_receive_publish_diagnostics ∷ with_respond_register_capability
      ∷ with_receive_show_message ∷ with_respond_configuration_request
      ∷ with_respond_inlay_hint_refresh ∷ with_respond_show_document_request
      ∷ with_respond_show_message_request ∷ with_respond_workspace_folders_request ∷ [];
  default_config = rust_analyzer_config;
}

abbrev pub jdtls_config : Fields
jdtls_config =
    field "java"
      (object (
        field "format" (object (field "enabled" enabled end)) (
          field "autobuild" (object (field "enabled" enabled end)) (
            field "completion"
              (object (
                field "favoriteStaticMembers"
                  (strings (
                    "org.junit.Assert.*" ∷ "org.junit.Assume.*" ∷ "org.junit.jupiter.*"
                    ∷ "org.junit.rules.ExpectedException.*" ∷ "org.hamcrest.MatcherAssert.*"
                    ∷ "org.hamcrest.Matchers.*" ∷ "org.hamcrest.CoreMatchers.*"
                    ∷ "java.util.Objects.*" ∷ "java.util.Arrays.*" ∷ "java.util.Collections.*"
                    ∷ []))
                  (field "importOrder" (strings ("java" ∷ "javax" ∷ "com" ∷ "org" ∷ [])) end)))
              (field "signatureHelp" (object (field "enabled" enabled end)) (
                field "contentProvider" (object (field "preferred" (text "fernflower") end))
                  end))))))
      end

abbrev pub jdtls_client : ClientClass
jdtls_client = record {
  program = "jdtls";
  args = [];
  language_config = java_language;
  mixins =
      with_notify_text_document_synchronize ∷ with_notify_did_change_configuration
      ∷ with_request_call_hierarchy ∷ with_request_code_action ∷ with_request_completion
      ∷ with_request_definition ∷ with_request_document_symbol ∷ with_request_hover
      ∷ with_request_implementation ∷ with_request_inlay_hint ∷ with_request_references
      ∷ with_request_rename ∷ with_request_signature_help ∷ with_request_type_definition
      ∷ with_request_type_hierarchy ∷ with_request_workspace_symbol ∷ with_receive_log_message
      ∷ with_receive_log_trace ∷ with_receive_publish_diagnostics ∷ with_respond_register_capability
      ∷ with_receive_show_message ∷ with_respond_configuration_request
      ∷ with_respond_inlay_hint_refresh ∷ with_respond_show_document_request
      ∷ with_respond_show_message_request ∷ with_respond_workspace_folders_request ∷ [];
  default_config = jdtls_config;
}
