-- ===== src/Requests/Tests.antt =====
-- Requests about one open file, in memory.
use lsp_client.Base.Exec.{pure}
use lsp_client.Base.Int.{◌+ℤ◌}
use lsp_client.Base.Int.{◌-ℤ◌}
use lsp_client.Document.{tally}
use lsp_client.Base.Dict.{insert}
use lsp_client.Document.{subtract}
use lsp_client.Document.{close_one}
use lsp_client.Document.{close_docs}
use lsp_client.Base.Dict.{lookup}
use lsp_client.Document.{missing}
use lsp_client.Document.{open_docs}
use lsp_client.Base.{
  true, ℕ, zero, suc, ◌≡◌, refl, String, false, Option, none, some, List, [], ◌∷◌,
}
use lsp_client.Base.Exec.{ok}
use lsp_client.Host.{from_local_uri}
use lsp_client.Workspace.{as_uri}
use lsp_client.Lsp.{Position, Range}
use lsp_client.Sample.{memory_host}
use lsp_client.Sample.World.{settings, world, a-IsStable, world-Mirrors}
use lsp_client.Client.{World, Action}
use lsp_client.Client.Body.{Ready}
use lsp_client.WorkspaceEdit.{WorkspaceEdit, apply_workspace_edit}
use lsp_client.Requests.{TextDocumentPosition}
use lsp_client.Requests.Rename.{RenameParams, request_rename}
use lsp_client.Requests.Asked.{Answered, params, request_rename-answers}
use lsp_client.Base.Int.{negsuc}
use lsp_client.Requests.Hierarchy.{of_prepared}
use lsp_client.Requests.Collected.{calls_of, Gives, of_prepared-answers}
use lsp_client.Requests.Places.{LocationLink, location_link, sequence, to_locations, target}
use lsp_client.Requests.Signatures.{SignatureHelp, active_signature}
use lsp_client.Requests.Actions.{
  Command, CodeAction, CodeActionItem, action_item, apply_code_actions,
}
use lsp_client.Requests.Applied.{Applied, apply_code_actions-Applied}

abbrev origin : Position
origin = record { line = 0; character = 0 }

abbrev path_a : List String
path_a = "" ∷ "w" ∷ "a" ∷ []

-- A server that has nothing to rename.
abbrev refuses : RenameParams → Action memory_host settings (Option WorkspaceEdit)
refuses p w = (ok none, w)

uri_a : as_uri memory_host settings.workspace path_a ≡ ok "/w/a"
unfolding as_uri from_local_uri
uri_a = refl

refused : (request_rename memory_host settings refuses path_a origin "b" world).0 ≡ ok false
unfolding request_rename as_uri from_local_uri open_docs missing lookup close_docs close_one
    subtract insert tally ◌-ℤ◌ ◌+ℤ◌
refused = refl

request_rename-answers_example :
    (v : World memory_host) × Ready memory_host settings ("/w/a" ∷ []) v
    × Answered memory_host settings false (refuses (params "/w/a" origin "b") v)
request_rename-answers_example =
    request_rename-answers memory_host settings path_a "/w/a" world refl uri_a a-IsStable
      world-Mirrors refuses origin "b" false refused

-- Two items, the first with two calls.
abbrev replies : ℕ → Option (List ℕ)
replies zero = some (5 ∷ 6 ∷ [])
replies (suc n) = none

abbrev request_calls : ℕ → Action memory_host settings (Option (List ℕ))
request_calls n w = (ok (replies n), w)

abbrev prepares : TextDocumentPosition → Action memory_host settings (Option (List ℕ))
prepares p w = (ok (some (0 ∷ 1 ∷ [])), w)

of_prepared-answers_example :
    Gives
      (calls_of replies (0 ∷ 1 ∷ []))
      (of_prepared memory_host settings prepares request_calls (some (0 ∷ 1 ∷ [])) world).0
of_prepared-answers_example =
    of_prepared-answers memory_host settings prepares request_calls replies (λ item w. refl)
      (some (0 ∷ 1 ∷ [])) world

abbrev first_line : Range
first_line = record { start = origin; end = record { line = 1; character = 0 } }

abbrev link : LocationLink
link = record {
  target_uri = "/w/a";
  target_range = first_line;
  target_selection_range = record { start = origin; end = origin };
}

links_targets : to_locations (sequence (location_link link ∷ [])) ≡ some (target link ∷ [])
unfolding to_locations
links_targets = refl

-- The server names a signature by a negative number.
abbrev help : SignatureHelp
help = record {
  signatures = record { label = "f(x)"; active_parameter = none } ∷ [];
  active_signature = some (negsuc 6);
  active_parameter = some 0;
}

-- An action with an edit and a command.
abbrev nothing_to_edit : WorkspaceEdit
nothing_to_edit = record { document_changes = none; changes = none }

abbrev organize : Command
organize = record { command = "organize"; arguments = none }

abbrev both : CodeAction
both = record { disabled = false; edit = some nothing_to_edit; command = some organize }

abbrev resolve : CodeAction → Action memory_host settings CodeAction
resolve item w = (ok item, w)

edited : apply_workspace_edit memory_host settings nothing_to_edit world ≡ (ok tt, world)
unfolding apply_workspace_edit pure
edited = refl

-- An action that is disabled, and one with an edit alone.
abbrev two_actions : List CodeActionItem
two_actions =
    action_item (record both { disabled = true })
    ∷ action_item (record both { command = none })
    ∷ []

applied : apply_code_actions memory_host settings resolve none two_actions world ≡ (ok tt, world)
unfolding apply_code_actions apply_workspace_edit pure
applied = refl

apply_code_actions-Applied_example : Applied memory_host settings resolve two_actions world world
apply_code_actions-Applied_example =
    apply_code_actions-Applied memory_host settings resolve two_actions world world applied
