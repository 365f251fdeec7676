-- ===== src/Hooks/Tests.antt =====
-- Two notification hooks, one of them twice, and two request hooks of one method.
use lsp_client.Base.Dict.{insert}
use lsp_client.Base.Dict.{lookup}
use lsp_client.Base.{◌≡◌, refl, String, none, List, [], ◌∷◌, if◌then◌else◌}
use lsp_client.Hooks.{
  Hook, request_hook, notification_hook, new_registry, register_hook, get_request_hook,
  get_notification_hooks, dispatch, notification, runs,
}
use lsp_client.Hooks.Registered.{register_all, last_request, is_registered, times, register_all_lem}

abbrev entries : List (String × Hook)
entries =
    ("log", notification_hook "print")
    ∷ ("edit", request_hook "apply")
    ∷ ("log", notification_hook "store")
    ∷ ("log", notification_hook "print")
    ∷ ("edit", request_hook "refuse")
    ∷ []

log_runs :
    dispatch (register_all entries new_registry) (notification "log")
    ≡ runs (("print", 1) ∷ ("store", 2) ∷ [])
unfolding dispatch register_all lookup register_hook insert
log_runs = refl

register_all_lem_example :
    (get_request_hook "edit" (register_all entries new_registry) ≡ last_request "edit" entries none)
    × ((x : String)
        → times x (get_notification_hooks "edit" (register_all entries new_registry))
          ≡ (if is_registered "edit" x entries then 1 else 0))
register_all_lem_example = register_all_lem "edit" entries
