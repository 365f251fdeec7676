-- ===== src/Requests/Places.antt =====
-- definition.py, declaration.py, type_definition.py, implementation.py and reference.py of
-- capability/request/, with the type guards of utils/type_guard.py that they use.
use lsp_client.Base.{String, Bool, Option, none, some, List, [], ◌∷◌, map}
use lsp_client.Base.Exec.{◌>>=◌, pure}
use lsp_client.Host.{Host}
use lsp_client.Lsp.{Position, Range}
use lsp_client.Client.{Settings, Action}
use lsp_client.Requests.{TextDocumentPosition, at_position}

pub record Location : Type 0 where
  pub uri : String
  pub range : Range

pub record LocationLink : Type 0 where
  pub target_uri : String
  pub target_range : Range
  pub target_selection_range : Range

pub data Entry : Type 0 where
  location : Location → Entry
  location_link : LocationLink → Entry

-- `Location | Sequence[Location] | Sequence[LocationLink] | None`
pub data LocationResult : Type 0 where
  nothing : LocationResult
  one : Location → LocationResult
  sequence : List Entry → LocationResult

-- `list(locations)` if `is_locations(locations)`, and `list(links)` if `is_location_links(links)`
unfoldable pub is_locations : List Entry → Option (List Location)
is_locations [] = some []
is_locations (location l ∷ es) = elim (is_locations es) [ some ls ↦ some (l ∷ ls) | none ↦ none ]
is_locations (location_link l ∷ es) = none

unfoldable pub is_location_links : List Entry → Option (List LocationLink)
is_location_links [] = some []
is_location_links (location l ∷ es) = none
is_location_links (location_link l ∷ es) = elim (is_location_links es) [
  | some ls ↦ some (l ∷ ls)
  | none ↦ none
]

-- `Location(uri=link.target_uri, range=link.target_selection_range)`
abbrev pub target : LocationLink → Location
target link = record { uri = link.target_uri; range = link.target_selection_range }

abbrev targets : Option (List LocationLink) → Option (List Location)
targets none = none
targets (some links) = some (map target links)

unfoldable pub to_locations : LocationResult → Option (List Location)
unfolding is_locations is_location_links
to_locations nothing = none
to_locations (one loc) = some (loc ∷ [])
to_locations (sequence es) = elim (is_locations es) [
  | some locations ↦ some locations
  | none ↦ targets (is_location_links es)
]

unfoldable pub to_links : LocationResult → Option (List LocationLink)
unfolding is_location_links
to_links nothing = none
to_links (one loc) = none
to_links (sequence es) = is_location_links es

-- The four requests are alike; `ask` is the call of the server.
module _ (h : Host) (c : Settings) (ask : TextDocumentPosition → Action h c LocationResult) where
  unfoldable pub request_definition : h.FilePath → Position → Action h c LocationResult
  unfolding at_position
  request_definition = at_position h c ask

  unfoldable pub request_definition_locations :
      h.FilePath → Position → Action h c (Option (List Location))
  unfolding request_definition to_locations ◌>>=◌
  request_definition_locations file_path position = do
    result ← request_definition file_path position
    pure (to_locations result)

  unfoldable pub request_definition_links :
      h.FilePath → Position → Action h c (Option (List LocationLink))
  unfolding request_definition to_links ◌>>=◌
  request_definition_links file_path position = do
    result ← request_definition file_path position
    pure (to_links result)

  unfoldable pub request_declaration : h.FilePath → Position → Action h c LocationResult
  unfolding at_position
  request_declaration = at_position h c ask

  unfoldable pub request_declaration_locations :
      h.FilePath → Position → Action h c (Option (List Location))
  unfolding request_declaration to_locations ◌>>=◌
  request_declaration_locations file_path position = do
    result ← request_declaration file_path position
    pure (to_locations result)

  unfoldable pub request_declaration_links :
      h.FilePath → Position → Action h c (Option (List LocationLink))
  unfolding request_declaration to_links ◌>>=◌
  request_declaration_links file_path position = do
    result ← request_declaration file_path position
    pure (to_links result)

  unfoldable pub request_type_definition : h.FilePath → Position → Action h c LocationResult
  unfolding at_position
  request_type_definition = at_position h c ask

  unfoldable pub request_type_definition_locations :
      h.FilePath → Position → Action h c (Option (List Location))
  unfolding request_type_definition to_locations ◌>>=◌
  request_type_definition_locations file_path position = do
    result ← request_type_definition file_path position
    pure (to_locations result)

  unfoldable pub request_type_definition_links :
      h.FilePath → Position → Action h c (Option (List LocationLink))
  unfolding request_type_definition to_links ◌>>=◌
  request_type_definition_links file_path position = do
    result ← request_type_definition file_path position
    pure (to_links result)

  unfoldable pub request_implementation : h.FilePath → Position → Action h c LocationResult
  unfolding at_position
  request_implementation = at_position h c ask

  unfoldable pub request_implementation_locations :
      h.FilePath → Position → Action h c (Option (List Location))
  unfolding request_implementation to_locations ◌>>=◌
  request_implementation_locations file_path position = do
    result ← request_implementation file_path position
    pure (to_locations result)

  unfoldable pub request_implementation_links :
      h.FilePath → Position → Action h c (Option (List LocationLink))
  unfolding request_implementation to_links ◌>>=◌
  request_implementation_links file_path position = do
    result ← request_implementation file_path position
    pure (to_links result)

-- `ReferenceContext(include_declaration=include_declaration)` and the position
pub record ReferenceParams : Type 0 where
  pub include_declaration : Bool
  pub at : TextDocumentPosition

module _ (h : Host) (c : Settings) where
  unfoldable pub request_references :
      (ReferenceParams → Action h c (Option (List Location)))
      → h.FilePath
      → Position
      → Bool
      → Action h c (Option (List Location))
  unfolding at_position
  request_references ask file_path position include_declaration =
      at_position h c (λ p. ask (record { include_declaration = include_declaration; at = p }))
        file_path position
