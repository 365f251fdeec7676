-- ===== src/Answers/Configured.antt =====
-- What a server is told of the default configuration of a client.
use lsp_client.Base.{
  ℕ, ◌≡◌, refl, String, Bool, false, none, some, List, [], ◌∷◌, All, All-map, str_eq,
}
use lsp_client.Config.{
  Value, object, ConfigurationMap, new_config_map, deep_get, deep_merge, split_dots, get_section,
  get_field, set_field, update_global, on_change,
}
use lsp_client.Capability.{iter_methods}
use lsp_client.Clients.{ClientClass}
use lsp_client.Clients.Known.{clients}
use lsp_client.Answers.{respond_configuration, register_callback, notify_change, init_config}

-- The configuration of a client after its session has started, with the calls that this made.
abbrev pub started : ClientClass → ConfigurationMap × List (ℕ × ConfigurationMap)
started c = init_config c.default_config (register_callback c.mixins new_config_map)

-- The client keeps its default configuration as it is, and tells the server of the change once.
abbrev Starts : ClientClass → Type 0
Starts c =
    ((started c).0.global_config ≡ c.default_config)
    × ((started c).1 ≡ (notify_change, (started c).0) ∷ [])

All-Starts : All Starts clients
unfolding init_config update_global on_change deep_merge iter_methods get_field set_field
All-Starts = (
  (refl, refl),
  (
    (refl, refl),
    (
      (refl, refl),
      (
        (refl, refl),
        ((refl, refl), ((refl, refl), ((refl, refl), ((refl, refl), ((refl, refl), tt))))),
      ),
    ),
  ),
)

module _ (posix_path : String → String) (fnmatch : String → String → Bool) where
  -- The answer for an item without a scope.
  abbrev item_answer : ClientClass → String → List Value
  item_answer c section =
      respond_configuration posix_path fnmatch (started c).0
        (record { scope_uri = none; section = some section } ∷ [])

  abbrev pub Configured : String → ClientClass → Type 0
  Configured section c =
      (item_answer c section ≡ deep_get (object c.default_config) (split_dots section) ∷ [])
      × ((started c).1 ≡ (notify_change, (started c).0) ∷ [])

  configured :
      (section : String) (c : ClientClass)
      → str_eq section "" ≡ false
      → Starts c
      → Configured section c
  unfolding respond_configuration get_section
  configured section c named (kept, told) = (rw (named, kept) refl, told)

  -- When its session has started, each client of the package has told the server once that its
  -- configuration changed, and answers an item for a section whose name is not empty, with no scope,
  -- by what its default configuration has at the parts of that name.
  pub clients-Configured :
      (section : String) → str_eq section "" ≡ false → All (Configured section) clients
  clients-Configured section named = All-map clients (λ c. configured section c named) All-Starts
