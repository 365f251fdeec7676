-- ===== src/Capability/Request.antt =====
-- capability/request/: what asks for places and descriptions of code.
use lsp_client.Base.{true, false, [], ◌∷◌}
use lsp_client.Config.{text, object, end, field}
use lsp_client.Hooks.{request_hook}
use lsp_client.Capability.{Mixin, overrides, sets, enabled, strings, workspace, text_document}

abbrev pub with_request_call_hierarchy : Mixin
with_request_call_hierarchy = record {
  methods =
      "textDocument/prepareCallHierarchy" ∷ "callHierarchy/incomingCalls"
      ∷ "callHierarchy/outgoingCalls" ∷ [];
  registration = overrides text_document true (sets "call_hierarchy" (object end) ∷ []);
  required = "call_hierarchy_provider" ∷ [];
  hooks = [];
}

abbrev pub with_request_type_hierarchy : Mixin
with_request_type_hierarchy = record {
  methods =
      "textDocument/prepareTypeHierarchy" ∷ "typeHierarchy/supertypes" ∷ "typeHierarchy/subtypes"
      ∷ [];
  registration = overrides text_document true (sets "type_hierarchy" (object end) ∷ []);
  required = "type_hierarchy_provider" ∷ [];
  hooks = [];
}

abbrev pub with_request_declaration : Mixin
with_request_declaration = record {
  methods = "textDocument/declaration" ∷ [];
  registration =
      overrides text_document true
        (sets "declaration" (object (field "link_support" enabled end)) ∷ []);
  required = "declaration_provider" ∷ [];
  hooks = [];
}

abbrev pub with_request_definition : Mixin
with_request_definition = record {
  methods = "textDocument/definition" ∷ [];
  registration =
      overrides text_document true
        (sets "definition" (object (field "link_support" enabled end)) ∷ []);
  required = "definition_provider" ∷ [];
  hooks = [];
}

abbrev pub with_request_type_definition : Mixin
with_request_type_definition = record {
  methods = "textDocument/typeDefinition" ∷ [];
  registration =
      overrides text_document true
        (sets "type_definition" (object (field "link_support" enabled end)) ∷ []);
  required = "type_definition_provider" ∷ [];
  hooks = [];
}

abbrev pub with_request_implementation : Mixin
with_request_implementation = record {
  methods = "textDocument/implementation" ∷ [];
  registration =
      overrides text_document true
        (sets "implementation" (object (field "link_support" enabled end)) ∷ []);
  required = "implementation_provider" ∷ [];
  hooks = [];
}

abbrev pub with_request_references : Mixin
with_request_references = record {
  methods = "textDocument/references" ∷ [];
  registration = overrides text_document true (sets "references" (object end) ∷ []);
  required = "references_provider" ∷ [];
  hooks = [];
}

abbrev pub with_request_hover : Mixin
with_request_hover = record {
  methods = "textDocument/hover" ∷ [];
  registration = overrides text_document true (
      sets "hover" (object (field "content_format" (strings ("markdown" ∷ "plaintext" ∷ [])) end))
      ∷ []);
  required = "hover_provider" ∷ [];
  hooks = [];
}

abbrev pub with_request_signature_help : Mixin
with_request_signature_help = record {
  methods = "textDocument/signatureHelp" ∷ [];
  registration = overrides text_document true (
      sets "signature_help" (
        object (
          field "context_support" enabled (
            field "signature_information"
              (object (
                field "documentation_format" (strings ("markdown" ∷ "plaintext" ∷ [])) (
                  field "parameter_information" (object (field "label_offset_support" enabled end))
                    (field "active_parameter_support" enabled end))))
              end)))
      ∷ []);
  required = "signature_help_provider" ∷ [];
  hooks = [];
}

abbrev pub with_request_document_symbol : Mixin
with_request_document_symbol = record {
  methods = "textDocument/documentSymbol" ∷ [];
  registration = overrides text_document true (
      sets "document_symbol" (
        object (
          field "symbol_kind" (object (field "value_set" (text "SymbolKind") end)) (
            field "hierarchical_document_symbol_support" enabled (
              field "tag_support" (object (field "value_set" (text "SymbolTag") end))
                (field "label_support" enabled end)))))
      ∷ []);
  required = "document_symbol_provider" ∷ [];
  hooks = [];
}

abbrev pub with_request_inline_value : Mixin
with_request_inline_value = record {
  methods = "textDocument/inlineValue" ∷ [];
  registration = overrides text_document true (sets "inline_value" (object end) ∷ []);
  required = "inline_value_provider" ∷ [];
  hooks = [];
}

abbrev pub with_request_inlay_hint : Mixin
with_request_inlay_hint = record {
  methods = "textDocument/inlayHint" ∷ "inlayHint/resolve" ∷ [];
  registration = overrides text_document true (
      sets "inlay_hint" (
        object (
          field "resolve_support"
            (object (
              field "properties"
                (strings
                  ("tooltip" ∷ "location" ∷ "label.tooltip" ∷ "label.location" ∷ "textEdits" ∷ []))
                end))
            end))
      ∷ []);
  required = "inlay_hint_provider" ∷ [];
  hooks = [];
}

abbrev pub with_document_diagnostic : Mixin
with_document_diagnostic = record {
  methods = "textDocument/diagnostic" ∷ [];
  registration = overrides text_document true (
      sets "diagnostic" (
        object (
          field "related_document_support" enabled (
            field "related_information" enabled (
              field "tag_support" (object (field "value_set" (text "DiagnosticTag") end))
                (field "code_description_support" enabled (field "data_support" enabled end))))))
      ∷ []);
  required = "diagnostic_provider" ∷ [];
  hooks = [];
}

abbrev pub with_workspace_diagnostic : Mixin
with_workspace_diagnostic = record {
  methods = "workspace/diagnostic" ∷ "workspace/diagnostic/refresh" ∷ [];
  registration =
      overrides workspace true
        (sets "diagnostics" (object (field "refresh_support" enabled end)) ∷ []);
  required = "diagnostic_provider" ∷ [];
  hooks = ("workspace/diagnostic/refresh", request_hook "respond_diagnostic_refresh") ∷ [];
}

abbrev pub with_request_workspace_symbol : Mixin
with_request_workspace_symbol = record {
  methods = "workspace/symbol" ∷ [];
  registration = overrides workspace true (
      sets "symbol" (
        object (
          field "symbol_kind" (object (field "value_set" (text "SymbolKind") end))
            (field "tag_support" (object (field "value_set" (text "SymbolTag") end)) end)))
      ∷ []);
  required = "workspace_symbol_provider" ∷ [];
  hooks = [];
}

-- It returns without the call of the next class, and asserts the class and an attribute of the
-- provider.
abbrev pub with_request_workspace_symbol_resolve : Mixin
with_request_workspace_symbol_resolve = record {
  methods = "workspaceSymbol/resolve" ∷ [];
  registration = overrides workspace false ([]);
  required =
      "workspace_symbol_provider is WorkspaceSymbolOptions"
      ∷ "workspace_symbol_provider.resolve_provider" ∷ [];
  hooks = [];
}
