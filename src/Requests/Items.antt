-- ===== src/Requests/Items.antt =====
-- completion.py, inlay_hint.py, document_symbol.py and workspace_symbol.py of capability/request/, and
-- capability/diagnostic/document.py, with the type guards of utils/type_guard.py that they use.
use lsp_client.Base.{ℕ, String, Bool, true, Option, none, some, List, [], ◌∷◌, map, if◌then◌else◌}
use lsp_client.Base.Exec.{◌>>=◌, pure}
use lsp_client.Host.{Host}
use lsp_client.Lsp.{Position, Range}
use lsp_client.Client.{Settings, Action}
use lsp_client.Requests.{TextDocumentPosition, on_file, at_position, each}
use lsp_client.Requests.Places.{Location}

pub record CompletionParams : Type 0 where
  pub at : TextDocumentPosition
  pub trigger_kind : ℕ
  pub trigger_character : Option String

-- `CompletionList | Sequence[CompletionItem] | None`
pub data CompletionResult (Item : Type 0) : Type 0 where
  nothing : CompletionResult Item
  completion_list : List Item → CompletionResult Item
  completion_items : List Item → CompletionResult Item

abbrev pub items_of : {Item : Type 0} → CompletionResult Item → List Item
items_of nothing = []
items_of (completion_list items) = items
items_of (completion_items items) = items

module _ (h : Host) (c : Settings) {Item : Type 0} (resolve_item : Item → Action h c Item) where
  unfoldable pub resolve_completion_items : List Item → Action h c (List Item)
  unfolding each
  resolve_completion_items = each h c resolve_item

  -- `if resolve and res: …`
  abbrev resolved_items : Bool → List Item → Action h c (List Item)
  resolved_items resolve items = if resolve then resolve_completion_items items else pure items

  unfoldable pub request_completion :
      (CompletionParams → Action h c (CompletionResult Item))
      → h.FilePath
      → Position
      → Option String
      → ℕ
      → Bool
      → Action h c (List Item)
  unfolding at_position resolve_completion_items ◌>>=◌
  request_completion ask file_path position trigger_character trigger_kind resolve = do
    result ←
        at_position h c
          (λ at. ask (record {
            at = at;
            trigger_kind = trigger_kind;
            trigger_character = trigger_character;
          }))
          file_path position
    resolved_items resolve (items_of result)

pub record InlayHintParams : Type 0 where
  pub uri : String
  pub range : Range

module _ (h : Host) (c : Settings) {Hint : Type 0} (resolve_hint : Hint → Action h c Hint) where
  -- `if resolve and hints: …`
  unfoldable pub resolved_hints : Bool → Option (List Hint) → Action h c (Option (List Hint))
  unfolding each ◌>>=◌
  resolved_hints true (some (hint ∷ hints)) = do
    values ← each h c resolve_hint (hint ∷ hints)
    pure (some values)
  resolved_hints _ hints = pure hints

  unfoldable pub request_inlay_hint :
      (InlayHintParams → Action h c (Option (List Hint)))
      → h.FilePath
      → Range
      → Bool
      → Action h c (Option (List Hint))
  unfolding on_file resolved_hints ◌>>=◌
  request_inlay_hint ask file_path range resolve = do
    hints ← on_file h c file_path (λ uri. ask (record { uri = uri; range = range }))
    resolved_hints resolve hints

pub record SymbolInformation : Type 0 where
  pub name : String
  pub kind : ℕ
  pub tags : Option (List ℕ)
  pub deprecated : Bool
  pub container_name : Option String
  pub location : Location

pub record WorkspaceSymbol : Type 0 where
  pub name : String
  pub kind : ℕ
  pub tags : Option (List ℕ)
  pub container_name : Option String
  pub location : Location

-- An entry of a sequence that is of one of two types.
pub data Either (A B : Type 0) : Type 0 where
  first : A → Either A B
  second : B → Either A B

-- `list(result)` if all entries are of the first type, and if all are of the second
unfoldable pub all_first : {A B : Type 0} → List (Either A B) → Option (List A)
all_first [] = some []
all_first (first a ∷ es) = elim (all_first es) [ some xs ↦ some (a ∷ xs) | none ↦ none ]
all_first (second b ∷ es) = none

unfoldable pub all_second : {A B : Type 0} → List (Either A B) → Option (List B)
all_second [] = some []
all_second (first a ∷ es) = none
all_second (second b ∷ es) = elim (all_second es) [ some xs ↦ some (b ∷ xs) | none ↦ none ]

-- `SymbolTag.Deprecated`
abbrev pub deprecated_tag : ℕ
deprecated_tag = 1

abbrev pub tags_of : Option (List ℕ) → Bool → Option (List ℕ)
tags_of (some (t ∷ ts)) deprecated = some (t ∷ ts)
tags_of _ deprecated = if deprecated then some (deprecated_tag ∷ []) else none

abbrev pub workspace_symbol : SymbolInformation → WorkspaceSymbol
workspace_symbol s = record {
  name = s.name;
  kind = s.kind;
  tags = tags_of s.tags s.deprecated;
  container_name = s.container_name;
  location = s.location;
}

abbrev pub or_empty : Option (List SymbolInformation) → List WorkspaceSymbol
or_empty none = []
or_empty (some infos) = map workspace_symbol infos

-- `Sequence[SymbolInformation] | Sequence[WorkspaceSymbol] | None`
abbrev pub WorkspaceSymbolResult : Type 0
WorkspaceSymbolResult = Option (List (Either WorkspaceSymbol SymbolInformation))

module _ (h : Host) (c : Settings) where
  -- With the method that resolves a symbol, if the client has its mixin.
  module _ (resolve_symbol : Option (WorkspaceSymbol → Action h c WorkspaceSymbol)) where
    unfoldable pub resolved_symbols :
        Bool → List WorkspaceSymbol → Action h c (List WorkspaceSymbol)
    unfolding each
    resolved_symbols resolve symbols = elim resolve_symbol [
      | none ↦ pure symbols
      | some request ↦ if resolve then each h c request symbols else pure symbols
    ]

    unfoldable pub symbol_list : Bool → WorkspaceSymbolResult → Action h c (List WorkspaceSymbol)
    unfolding resolved_symbols all_first all_second
    symbol_list resolve none = pure []
    symbol_list resolve (some es) = elim (all_first es) [
      | some symbols ↦ resolved_symbols resolve symbols
      | none ↦ pure (or_empty (all_second es))
    ]

    unfoldable pub request_workspace_symbol_list :
        (String → Action h c WorkspaceSymbolResult)
        → String
        → Bool
        → Action h c (List WorkspaceSymbol)
    unfolding symbol_list ◌>>=◌
    request_workspace_symbol_list ask query resolve = do
      result ← ask query
      symbol_list resolve result

  abbrev document_symbols :
      {Symbol : Type 0} → Option (List (Either Symbol SymbolInformation)) → Option (List Symbol)
  document_symbols none = none
  document_symbols (some es) = all_first es

  unfoldable pub request_document_symbol_list :
      {Symbol : Type 0}
      → (String → Action h c (Option (List (Either Symbol SymbolInformation))))
      → h.FilePath
      → Action h c (Option (List Symbol))
  unfolding on_file all_first ◌>>=◌
  request_document_symbol_list ask file_path = do
    result ← on_file h c file_path ask
    pure (document_symbols result)
