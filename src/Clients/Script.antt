-- ===== src/Clients/Script.antt =====
-- clients/typescript.py and clients/deno/client.py: the clients for TypeScript and JavaScript.
use lsp_client.Base.{[], ◌∷◌}
use lsp_client.Config.{Fields, text, object, end, field}
use lsp_client.Lang.{LanguageConfig}
use lsp_client.Capability.{enabled}
use lsp_client.Capability.Notify.{
  with_notify_text_document_synchronize, with_notify_did_change_configuration,
}
use lsp_client.Capability.Edits.{with_request_code_action, with_request_completion}
use lsp_client.Capability.Request.{
  with_request_hover, with_request_definition, with_request_references, with_request_implementation,
  with_request_type_definition, with_request_document_symbol, with_request_inlay_hint,
  with_request_signature_help, with_request_workspace_symbol, with_request_call_hierarchy,
  with_document_diagnostic,
}
use lsp_client.Capability.Receive.{
  with_receive_log_message, with_receive_log_trace, with_receive_publish_diagnostics,
  with_receive_show_message,
}
use lsp_client.Capability.Respond.{
  with_respond_register_capability, with_respond_configuration_request,
  with_respond_inlay_hint_refresh, with_respond_show_document_request,
  with_respond_show_message_request, with_respond_workspace_folders_request,
}
use lsp_client.Capability.Deno.{
  with_request_deno_cache, with_request_deno_performance,
  with_request_deno_reload_import_registries, with_request_deno_virtual_text_document,
  with_request_deno_task, with_request_deno_test_run, with_request_deno_test_run_cancel,
  with_receive_deno_registry_status, with_receive_deno_test_module,
  with_receive_deno_test_module_delete, with_receive_deno_test_run_progress,
}
use lsp_client.Clients.{ClientClass, typescript_language}

abbrev pub typescript_config : Fields
typescript_config =
    field "typescript"
      (object (
        field "inlayHints"
          (object (
            field "includeInlayParameterNameHints" (text "all") (
              field "includeInlayParameterNameHintsWhenArgumentMatchesName" enabled (
                field "includeInlayFunctionParameterTypeHints" enabled (
                  field "includeInlayVariableTypeHints" enabled (
                    field "includeInlayVariableTypeHintsWhenTypeMatchesName" enabled (
                      field "includeInlayPropertyDeclarationTypeHints" enabled (
                        field "includeInlayFunctionLikeReturnTypeHints" enabled
                          (field "includeInlayEnumMemberValueHints" enabled end)))))))))
          (field "suggest"
            (object (
              field "autoImports" enabled (
                field "completeFunctionCalls" enabled
                  (field "includeCompletionsForModuleExports" enabled end))))
            (field "preferences"
              (object (
                field "includePackageJsonAutoImports" (text "on")
                  (field "importModuleSpecifier" (text "shortest") end)))
              end))))
      (field "javascript"
        (object (
          field "inlayHints"
            (object (
              field "includeInlayParameterNameHints" (text "all") (
                field "includeInlayParameterNameHintsWhenArgumentMatchesName" enabled (
                  field "includeInlayFunctionParameterTypeHints" enabled (
                    field "includeInlayVariableTypeHints" enabled (
                      field "includeInlayVariableTypeHintsWhenTypeMatchesName" enabled (
                        field "includeInlayPropertyDeclarationTypeHints" enabled (
                          field "includeInlayFunctionLikeReturnTypeHints" enabled
                            (field "includeInlayEnumMemberValueHints" enabled end)))))))))
            (field "suggest"
              (object (
                field "autoImports" enabled (
                  field "completeFunctionCalls" enabled
                    (field "includeCompletionsForModuleExports" enabled end))))
              (field "preferences"
                (object (
                  field "includePackageJsonAutoImports" (text "on")
                    (field "importModuleSpecifier" (text "shortest") end)))
                end))))
        end)

abbrev pub typescript_client : ClientClass
typescript_client = record {
  program = "typescript-language-server";
  args = "--stdio" ∷ [];
  language_config = typescript_language;
  mixins =
      with_notify_text_document_synchronize ∷ with_notify_did_change_configuration
      ∷ with_request_code_action ∷ with_request_completion ∷ with_request_hover
      ∷ with_request_definition ∷ with_request_references ∷ with_request_implementation
      ∷ with_request_type_definition ∷ with_request_document_symbol ∷ with_request_inlay_hint
      ∷ with_request_signature_help ∷ with_request_workspace_symbol ∷ with_receive_log_message
      ∷ with_receive_log_trace ∷ with_receive_publish_diagnostics ∷ with_respond_register_capability
      ∷ with_receive_show_message ∷ with_respond_configuration_request
      ∷ with_respond_inlay_hint_refresh ∷ with_respond_show_document_request
      ∷ with_respond_show_message_request ∷ with_respond_workspace_folders_request ∷ [];
  default_config = typescript_config;
}

abbrev pub deno_language : LanguageConfig
deno_language = record {
  kind = "typescript";
  suffixes = ".ts" ∷ ".tsx" ∷ ".js" ∷ ".jsx" ∷ ".mjs" ∷ [];
  project_files = "deno.json" ∷ "deno.jsonc" ∷ [];
  exclude_files = [];
}

abbrev pub deno_config : Fields
deno_config =
    field "deno"
      (object (
        field "enable" enabled (
          field "unstable" enabled (
            field "lint" enabled (
              field "suggest"
                (object (
                  field "autoImports" enabled (
                    field "completeFunctionCalls" enabled (
                      field "names" enabled (
                        field "paths" enabled (
                          field "imports"
                            (object (
                              field "autoDiscover" enabled (
                                field "hosts"
                                  (object (
                                    field "https://deno.land" enabled
                                      (field "https://esm.sh" enabled end)))
                                  end)))
                            end))))))
                (field "inlayHints"
                  (object (
                    field "parameterNames" (object (field "enabled" (text "all") end)) (
                      field "parameterTypes" (object (field "enabled" enabled end)) (
                        field "variableTypes" (object (field "enabled" enabled end)) (
                          field "propertyDeclarationTypes" (object (field "enabled" enabled end)) (
                            field "functionLikeReturnTypes" (object (field "enabled" enabled end)) (
                              field "enumMemberValues" (object (field "enabled" enabled end))
                                end)))))))
                  (field "codeLens"
                    (object (
                      field "implementations" enabled (
                        field "references" enabled
                          (field "referencesAllFunctions" enabled (field "test" enabled end)))))
                    end)))))))
      end

abbrev pub deno_client : ClientClass
deno_client = record {
  program = "deno";
  args = "lsp" ∷ [];
  language_config = deno_language;
  mixins =
      with_notify_text_document_synchronize ∷ with_notify_did_change_configuration
      ∷ with_request_code_action ∷ with_request_hover ∷ with_request_completion
      ∷ with_request_definition ∷ with_request_references ∷ with_request_implementation
      ∷ with_request_type_definition ∷ with_request_call_hierarchy ∷ with_request_document_symbol
      ∷ with_request_inlay_hint ∷ with_document_diagnostic ∷ with_request_signature_help
      ∷ with_request_workspace_symbol ∷ with_receive_log_message ∷ with_receive_log_trace
      ∷ with_receive_publish_diagnostics ∷ with_respond_register_capability
      ∷ with_receive_show_message ∷ with_respond_configuration_request
      ∷ with_respond_inlay_hint_refresh ∷ with_respond_show_document_request
      ∷ with_respond_show_message_request ∷ with_respond_workspace_folders_request
      ∷ with_request_deno_cache ∷ with_request_deno_performance
      ∷ with_request_deno_reload_import_registries ∷ with_request_deno_virtual_text_document
      ∷ with_request_deno_task ∷ with_request_deno_test_run ∷ with_request_deno_test_run_cancel
      ∷ with_receive_deno_registry_status ∷ with_receive_deno_test_module
      ∷ with_receive_deno_test_module_delete ∷ with_receive_deno_test_run_progress ∷ [];
  default_config = deno_config;
}
