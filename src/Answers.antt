-- ===== src/Answers.antt =====
-- capability/server_request/ and capability/diagnostic/workspace.py: what a client answers to the requests of a server
-- that its hooks are for, but for workspace/applyEdit. The file path of a scope and the matching of patterns are
-- parameters, as in Config.antt.
pub mod Configured
pub mod Tests
use lsp_client.Base.{
  ℕ, String, Bool, true, false, Option, none, some, List, [], ◌∷◌, map, if◌then◌else◌, contains,
}
use lsp_client.Config.{Value, Fields, end, ConfigurationMap, get, on_change, update_global}
use lsp_client.Workspace.{Workspace, WorkspaceFolder, to_folders}
use lsp_client.Capability.{Mixin, iter_methods}

pub record ConfigurationItem : Type 0 where
  pub scope_uri : Option String
  pub section : Option String

module _ (posix_path : String → String) (fnmatch : String → String → Bool) where
  unfoldable pub get_configuration : ConfigurationMap → Option String → Option String → Value
  unfolding get
  get_configuration m scope_uri section = get posix_path fnmatch scope_uri section m

  unfoldable pub respond_configuration : ConfigurationMap → List ConfigurationItem → List Value
  unfolding get_configuration
  respond_configuration m items =
      map (λ item. get_configuration m item.scope_uri item.section) items

-- `register_server_request_hooks` of the mixin for configuration: a client that can notify the
-- server of changes does so when the configuration changes. The callback is known by 0.
abbrev pub notify_change : ℕ
notify_change = 0

abbrev pub register_callback : List Mixin → ConfigurationMap → ConfigurationMap
register_callback mixins m =
    if contains "workspace/configuration" (iter_methods mixins)
    then (if contains "workspace/didChangeConfiguration" (iter_methods mixins)
        then on_change notify_change m
        else m)
    else m

-- `if init_config := self.create_default_config(): await self._config.update_global(init_config)`
unfoldable pub init_config :
    Fields → ConfigurationMap → ConfigurationMap × List (ℕ × ConfigurationMap)
unfolding update_global
init_config end m = (m, [])
init_config config m = update_global config true m

unfoldable pub respond_workspace_folders : Workspace → List WorkspaceFolder
unfolding to_folders
respond_workspace_folders workspace = to_folders workspace

-- `ShowDocumentResult(success=True)`, whatever is asked
unfoldable pub respond_show_document : String → Bool
respond_show_document uri = true

-- the title of the `MessageActionItem`, whatever is asked
unfoldable pub respond_show_message : String → Option String
respond_show_message message = some "Default response from `lsp-client`."

-- `result=None` to the refresh requests and to dynamic registration, which is not done
unfoldable pub respond_inlay_hint_refresh : Option Value
respond_inlay_hint_refresh = none

unfoldable pub respond_diagnostic_refresh : Option Value
respond_diagnostic_refresh = none

unfoldable pub respond_register_capability : List String → Option Value
respond_register_capability methods = none

unfoldable pub respond_unregister_capability : List String → Option Value
respond_unregister_capability methods = none
