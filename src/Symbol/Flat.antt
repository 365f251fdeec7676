-- ===== src/Symbol/Flat.antt =====
-- `flattened`, `get_path` and `get_position` of utils/symbol.py. A dict by paths is an association
-- list in insertion order. Which symbol is the same object as another is a parameter.
use lsp_client.Base.{
  ℕ, zero, suc, String, Bool, true, false, ◌&&◌, Option, none, some, List, [], ◌∷◌, ◌++◌, map,
  if◌then◌else◌, str_eq,
}
use lsp_client.Lsp.{Position}
use lsp_client.Symbol.{DocumentSymbol, symbol, name, children, size}

-- `DocumentSymbolPath`
abbrev pub SymbolPath : Type 0
SymbolPath = List String

abbrev pub same_symbols : SymbolPath → SymbolPath → Bool
same_symbols [] [] = true
same_symbols (m ∷ p) (n ∷ q) = str_eq m n && same_symbols p q
same_symbols _ _ = false

abbrev pub Flattened : Type 0
Flattened = List (SymbolPath × DocumentSymbol)

unfoldable pub symbol_at : SymbolPath → Flattened → Option DocumentSymbol
symbol_at p [] = none
symbol_at p ((q, s) ∷ d) = if same_symbols q p then some s else symbol_at p d

-- `result[path] = node`
unfoldable pub set_at : SymbolPath → DocumentSymbol → Flattened → Flattened
set_at p s [] = (p, s) ∷ []
set_at p s ((q, t) ∷ d) = if same_symbols q p then (p, s) ∷ d else (q, t) ∷ set_at p s d

-- `(path / child.name, child)`
abbrev pub below : SymbolPath → DocumentSymbol → SymbolPath × DocumentSymbol
below path child = (path ++ name child ∷ [], child)

-- The stack with its top first, and the result so far.
unfoldable pub flatten_loop : ℕ → Flattened → Flattened → Flattened
unfolding set_at
flatten_loop zero stack result = result
flatten_loop (suc fuel) [] result = result
flatten_loop (suc fuel) ((path, node) ∷ stack) result =
    flatten_loop fuel (map (below path) (children node) ++ stack) (set_at path node result)

unfoldable pub flattened : DocumentSymbol → Flattened
unfolding flatten_loop size
flattened root = flatten_loop (size root) ((name root ∷ [], root) ∷ []) []

abbrev start_of : DocumentSymbol → Position
start_of (symbol n r s cs) = s.start

module _ (is_same : DocumentSymbol → DocumentSymbol → Bool) where
  -- `_symbol_to_path.get(id(symbol))`: the last path of an object
  unfoldable pub path_of : DocumentSymbol → Flattened → Option SymbolPath
  path_of s [] = none
  path_of s ((p, t) ∷ d) = elim (path_of s d) [
    | none ↦ if is_same t s then some p else none
    | some q ↦ some q
  ]

  unfoldable pub get_path : DocumentSymbol → DocumentSymbol → Option SymbolPath
  unfolding path_of flattened
  get_path root s = path_of s (flattened root)

  unfoldable pub get_position : DocumentSymbol → DocumentSymbol → Option Position
  unfolding get_path
  get_position root s = elim (get_path root s) [ none ↦ none | some p ↦ some (start_of s) ]
