-- ===== src/Capability/Edits.antt =====
-- capability/request/: what asks for edits, completions and commands.
use lsp_client.Base.{true, [], ◌∷◌}
use lsp_client.Config.{text, object, end, field}
use lsp_client.Capability.{
  Mixin, overrides, sets, sets_file_operation, enabled, strings, workspace, text_document,
}

abbrev pub with_request_rename : Mixin
with_request_rename = record {
  methods = "textDocument/rename" ∷ "textDocument/prepareRename" ∷ [];
  registration =
      overrides text_document true
        (sets "rename" (object (field "prepare_support" enabled end)) ∷ []);
  required = "rename_provider" ∷ [];
  hooks = [];
}

abbrev pub with_request_code_action : Mixin
with_request_code_action = record {
  methods = "textDocument/codeAction" ∷ "codeAction/resolve" ∷ [];
  registration = overrides text_document true (
      sets "code_action" (
        object (
          field "code_action_literal_support"
            (object (
              field "code_action_kind" (object (field "value_set" (text "CodeActionKind") end))
                end))
            (field "is_preferred_support" enabled (
              field "disabled_support" enabled (
                field "data_support" enabled (
                  field "resolve_support"
                    (object (field "properties" (strings ("edit" ∷ "command" ∷ [])) end)) end))))))
      ∷ []);
  required = "code_action_provider" ∷ [];
  hooks = [];
}

abbrev pub with_request_completion : Mixin
with_request_completion = record {
  methods = "textDocument/completion" ∷ "completionItem/resolve" ∷ [];
  registration = overrides text_document true (
      sets "completion" (
        object (
          field "completion_item"
            (object (
              field "snippet_support" enabled (
                field "resolve_support"
                  (object (
                    field "properties" (strings ("documentation" ∷ "additionalTextEdits" ∷ []))
                      end))
                  end)))
            (field "context_support" enabled end)))
      ∷ []);
  required = "completion_provider" ∷ [];
  hooks = [];
}

abbrev pub with_request_execute_command : Mixin
with_request_execute_command = record {
  methods = "workspace/executeCommand" ∷ [];
  registration = overrides workspace true (sets "execute_command" (object end) ∷ []);
  required = "execute_command_provider" ∷ [];
  hooks = [];
}

abbrev pub with_request_will_create_files : Mixin
with_request_will_create_files = record {
  methods = "workspace/willCreateFiles" ∷ [];
  registration = overrides workspace true (sets_file_operation "will_create" ∷ []);
  required = [];
  hooks = [];
}

abbrev pub with_request_will_rename_files : Mixin
with_request_will_rename_files = record {
  methods = "workspace/willRenameFiles" ∷ [];
  registration = overrides workspace true (sets_file_operation "will_rename" ∷ []);
  required = [];
  hooks = [];
}

abbrev pub with_request_will_delete_files : Mixin
with_request_will_delete_files = record {
  methods = "workspace/willDeleteFiles" ∷ [];
  registration = overrides workspace true (sets_file_operation "will_delete" ∷ []);
  required = [];
  hooks = [];
}
