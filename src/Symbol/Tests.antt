-- ===== src/Symbol/Tests.antt =====
-- A class with two methods, the second with a local function.
use lsp_client.Base.{◌≡◌, refl, Bool, true, ◌&&◌, ◌⊎◌, ℕ, none, some, [], ◌∷◌}
use lsp_client.Lsp.{Position, Range, le_pos}
use lsp_client.Symbol.{
  DocumentSymbol, symbol, nil, cons, range, child_named, contains_pos, is_narrower, best_child,
  at_path, at_position, iter_dfs, iter_bfs,
}
use lsp_client.Symbol.Flat.{symbol_at, flattened, path_of, get_path}
use lsp_client.Symbol.Paths.{distinct, flattened-at_path}
use lsp_client.Symbol.Orders.{preorder, iter_dfs-eq-preorder}
use lsp_client.Symbol.Choice.{Has}
use lsp_client.Symbol.Lookup.{Leads, at_position_lem}

abbrev at : ℕ → Position
at i = record { line = i; character = 0 }

abbrev lines : ℕ → ℕ → Range
lines i j = record { start = at i; end = at j }

abbrev local : DocumentSymbol
local = symbol "h" (lines 5 7) (lines 5 5) nil

abbrev first : DocumentSymbol
first = symbol "f" (lines 1 3) (lines 1 1) nil

abbrev second : DocumentSymbol
second = symbol "g" (lines 4 8) (lines 4 4) (cons local nil)

abbrev tree : DocumentSymbol
tree = symbol "C" (lines 0 9) (lines 0 0) (cons first (cons second nil))

at_path-local : at_path ("C" ∷ "g" ∷ "h" ∷ []) tree ≡ some local
unfolding at_path child_named
at_path-local = refl

at_position-local : at_position (at 6) tree ≡ some local
unfolding at_position best_child contains_pos is_narrower
at_position-local = refl

bfs_order : iter_bfs tree ≡ tree ∷ first ∷ second ∷ local ∷ []
unfolding iter_bfs
bfs_order = refl

iter_dfs-eq-preorder_example : iter_dfs tree ≡ tree ∷ first ∷ second ∷ local ∷ []
unfolding preorder
iter_dfs-eq-preorder_example = iter_dfs-eq-preorder tree

at_position_lem_example :
    ((¬ Has (at 6) tree) × (at_position (at 6) tree ≡ none))
    ⊎ ((s : DocumentSymbol) × (at_position (at 6) tree ≡ some s)
        × Has (at 6) tree
        × Leads (at 6) tree s)
at_position_lem_example = at_position_lem (at 6) tree

tree-distinct : distinct tree ≡ true
unfolding distinct child_named
tree-distinct = refl

flattened-at_path_example :
    symbol_at ("C" ∷ "g" ∷ "h" ∷ []) (flattened tree) ≡ at_path ("C" ∷ "g" ∷ "h" ∷ []) tree
flattened-at_path_example = flattened-at_path tree ("C" ∷ "g" ∷ "h" ∷ []) tree-distinct

-- A class that defines a method twice.
abbrev again : DocumentSymbol
again = symbol "f" (lines 4 8) (lines 4 4) nil

abbrev twice : DocumentSymbol
twice = symbol "C" (lines 0 9) (lines 0 0) (cons first (cons again nil))

abbrev same_line : DocumentSymbol → DocumentSymbol → Bool
same_line s t = le_pos (range s).start (range t).start && le_pos (range t).start (range s).start

at_path-first : at_path ("C" ∷ "f" ∷ []) twice ≡ some first
unfolding at_path child_named
at_path-first = refl

flattened-again : symbol_at ("C" ∷ "f" ∷ []) (flattened twice) ≡ some again
unfolding flattened symbol_at
flattened-again = refl

get_path-first : get_path same_line twice first ≡ none
unfolding get_path path_of
get_path-first = refl
