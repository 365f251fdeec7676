-- ===== src/Capability/Tests.antt =====
-- Classes of a few mixins.
use lsp_client.Base.Dict.{insert}
use lsp_client.Hooks.{register_hook}
use lsp_client.Hooks.Registered.{register_all}
use lsp_client.Base.Dict.{lookup}
use lsp_client.Base.{◌≡◌, refl, String, Bool, false, [], ◌∷◌}
use lsp_client.Base.Exec.{err}
use lsp_client.Config.{object, field, end, get_field, set_field}
use lsp_client.Hooks.{dispatch, request, answers}
use lsp_client.Capability.{
  workspace, text_document, register_section, check_server_capability, build_server_request_hooks,
  enabled,
}
use lsp_client.Capability.Request.{
  with_request_definition, with_request_hover, with_request_workspace_symbol_resolve,
}
use lsp_client.Capability.Edits.{with_request_will_rename_files}
use lsp_client.Capability.Notify.{with_notify_did_rename_files}
use lsp_client.Capability.Respond.{with_respond_configuration_request}
use lsp_client.Capability.Receive.{with_receive_publish_diagnostics}
use lsp_client.Capability.Chain.{has_field, registers, has_field-register_section}

file_operations_shared :
    register_section workspace
      (with_request_will_rename_files ∷ with_notify_did_rename_files ∷ [])
      end
    ≡ field "file_operations"
        (object (field "did_rename" enabled (field "will_rename" enabled end)))
        end
unfolding register_section set_field get_field
file_operations_shared = refl

configuration_answered :
    dispatch
      (build_server_request_hooks (with_respond_configuration_request ∷ []))
      (request "workspace/configuration")
    ≡ answers "respond_configuration_request"
unfolding dispatch build_server_request_hooks lookup register_all register_hook insert
configuration_answered = refl

-- A mixin that leaves out the call of the next class keeps what comes behind it from the server.
abbrev cut_off : String → Bool
cut_off key =
    registers workspace key
      (with_request_workspace_symbol_resolve ∷ with_respond_configuration_request ∷ [])

configuration_lost : cut_off "configuration" ≡ false
configuration_lost = refl

diagnostics_not_published :
    has_field "publish_diagnostics"
      (register_section text_document (with_receive_publish_diagnostics ∷ []) end)
    ≡ false
unfolding register_section set_field get_field
diagnostics_not_published = refl

hover_missing :
    check_server_capability (with_request_hover ∷ with_request_definition ∷ []) (λ p. false)
    ≡ err "definition_provider"
unfolding check_server_capability
hover_missing = refl

has_field-register_section_example :
    has_field "hover"
      (register_section text_document (with_request_definition ∷ with_request_hover ∷ []) end)
    ≡ registers text_document "hover" (with_request_definition ∷ with_request_hover ∷ [])
has_field-register_section_example =
    has_field-register_section text_document "hover"
      (with_request_definition ∷ with_request_hover ∷ [])
