-- ===== src/Answers/Tests.antt =====
-- The configuration that Python's client answers for its inlay hints.
use lsp_client.Config.{on_change}
use lsp_client.Capability.{iter_methods}
use lsp_client.Config.{set_field}
use lsp_client.Config.{deep_merge}
use lsp_client.Answers.{init_config}
use lsp_client.Config.{get_field}
use lsp_client.Config.{getitem}
use lsp_client.Config.{split_dots}
use lsp_client.Config.{deep_get}
use lsp_client.Base.{◌≡◌, refl, String, Bool, true, none, some, [], ◌∷◌, All}
use lsp_client.Capability.{enabled}
use lsp_client.Clients.Known.{clients}
use lsp_client.Clients.Script.{deno_client}
use lsp_client.Answers.{respond_configuration}
use lsp_client.Answers.Configured.{started, Configured, clients-Configured}

abbrev same_path : String → String
same_path uri = uri

abbrev matches_all : String → String → Bool
matches_all path pattern = true

lint_enabled :
    respond_configuration same_path matches_all
      (started deno_client).0
      (record { scope_uri = none; section = some "deno.lint" } ∷ [])
    ≡ enabled ∷ []
unfolding respond_configuration deep_get split_dots getitem get_field init_config deep_merge
    set_field iter_methods on_change
lint_enabled = refl

clients-Configured_example : All (Configured same_path matches_all "pyrefly.inlayHints") clients
clients-Configured_example = clients-Configured same_path matches_all "pyrefly.inlayHints" refl
