-- ===== src/Requests/Actions.antt =====
-- capability/request/code_action.py.
use lsp_client.Base.{
  ℕ, String, Bool, ◌&&◌, not, Option, none, some, List, [], ◌∷◌, if◌then◌else◌, is_some,
}
use lsp_client.Base.Exec.{◌>>=◌, ◌>>◌, pure, raise}
use lsp_client.Host.{Host, runtime_error}
use lsp_client.Lsp.{Range}
use lsp_client.Config.{Value, Items}
use lsp_client.Client.{Settings, Action}
use lsp_client.WorkspaceEdit.{WorkspaceEdit, apply_workspace_edit}
use lsp_client.Requests.{on_file}

pub record Command : Type 0 where
  pub command : String
  pub arguments : Option Items

pub record CodeAction : Type 0 where
  -- whether there is a reason
  pub disabled : Bool
  pub edit : Option WorkspaceEdit
  pub command : Option Command

pub data CodeActionItem : Type 0 where
  command_item : Command → CodeActionItem
  action_item : CodeAction → CodeActionItem

pub record CodeActionParams : Type 0 where
  pub uri : String
  pub range : Range
  pub diagnostics : List Value
  pub only : Option (List String)
  pub trigger_kind : Option ℕ

-- `list(only) if only else None`, and `list(result) if result else []`
abbrev pub or_none : Option (List String) → Option (List String)
or_none none = none
or_none (some []) = none
or_none (some (x ∷ xs)) = some (x ∷ xs)

abbrev pub or_empty {ℓ} : {A : Type ℓ} → Option (List A) → List A
or_empty none = []
or_empty (some xs) = xs

module _ (h : Host) (c : Settings) where
  unfoldable pub request_code_action :
      (CodeActionParams → Action h c (Option (List CodeActionItem)))
      → h.FilePath
      → Range
      → Option (List Value)
      → Option (List String)
      → Option ℕ
      → Action h c (List CodeActionItem)
  unfolding on_file ◌>>=◌
  request_code_action ask file_path range diagnostics only trigger_kind = do
    result ← on_file h c file_path λ uri. ask (record {
      uri = uri;
      range = range;
      diagnostics = or_empty diagnostics;
      only = or_none only;
      trigger_kind = trigger_kind;
    })
    pure (or_empty result)

  -- `request_execute_command` is there only if the client has its mixin.
  module _ (resolve : CodeAction → Action h c CodeAction)
      (request_execute_command : Option (Command → Action h c (Unit {0}))) where
    abbrev pub run_command : Command → Action h c (Unit {0})
    run_command command = elim request_execute_command [
      | none ↦ raise runtime_error
      | some method ↦ method command
    ]

    abbrev pub run_edit : Option WorkspaceEdit → Action h c (Unit {0})
    run_edit none = pure tt
    run_edit (some edit) = apply_workspace_edit h c edit

    abbrev pub run_optional : Option Command → Action h c (Unit {0})
    run_optional none = pure tt
    run_optional (some command) = run_command command

    -- `if item.edit is None and item.command is None: …`
    abbrev pub resolved : CodeAction → Action h c CodeAction
    resolved item =
        if not (is_some item.edit) && not (is_some item.command) then resolve item else pure item

    unfoldable pub apply_action : CodeAction → Action h c (Unit {0})
    unfolding ◌>>=◌
    apply_action item = do ready ← resolved item; run_edit ready.edit; run_optional ready.command

    unfoldable pub apply_code_action : CodeActionItem → Action h c (Unit {0})
    unfolding apply_action ◌>>=◌
    apply_code_action (command_item command) = run_command command
    apply_code_action (action_item item) = if item.disabled then pure tt else apply_action item

    unfoldable pub apply_code_actions : List CodeActionItem → Action h c (Unit {0})
    unfolding apply_code_action ◌>>=◌
    apply_code_actions [] = pure tt
    apply_code_actions (item ∷ items) = do apply_code_action item; apply_code_actions items
