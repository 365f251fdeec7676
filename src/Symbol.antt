-- ===== src/Symbol.antt =====
-- utils/symbol.py: lookups in the tree of a document's symbols, and its two orders. A symbol
-- without a list of children has none. The loops `while stack`, `while queue` and `while True`
-- have as fuel the number of symbols of the tree, which bounds their rounds.
pub mod Orders
pub mod Choice
pub mod Lookup
pub mod Flat
pub mod Listing
pub mod Paths
pub mod Tests
use lsp_client.Base.{
  ℕ, zero, suc, ◌+◌, String, Bool, true, false, ◌&&◌, ◌||◌, not, Option, none, some, List, [], ◌∷◌,
  ◌++◌, if◌then◌else◌, str_eq,
}
use lsp_client.Lsp.{Position, Range, le_pos, lt_pos}

mutual
  -- name, range, selection range, children
  pub data DocumentSymbol : Type 0 where
    symbol : String → Range → Range → Symbols → DocumentSymbol

  pub data Symbols : Type 0 where
    nil : Symbols
    cons : DocumentSymbol → Symbols → Symbols

abbrev pub name : DocumentSymbol → String
name (symbol n r s cs) = n

abbrev pub range : DocumentSymbol → Range
range (symbol n r s cs) = r

abbrev to_list : Symbols → List DocumentSymbol
to_list nil = []
to_list (cons s cs) = s ∷ to_list cs

-- `node.children or ()`
abbrev pub children : DocumentSymbol → List DocumentSymbol
children (symbol n r s cs) = to_list cs

-- The number of symbols of a tree.
unfoldable mutual
  pub size : DocumentSymbol → ℕ
  size (symbol n r s cs) = suc (size_all cs)

  pub size_all : Symbols → ℕ
  size_all nil = 0
  size_all (cons s cs) = size s + size_all cs

unfoldable pub contains_pos : Range → Position → Bool
contains_pos r p = le_pos r.start p && lt_pos p r.end

unfoldable pub is_narrower : Range → Range → Bool
is_narrower inner outer = le_pos outer.start inner.start && le_pos inner.end outer.end

-- `next((c for c in children if c.name == name), None)`
unfoldable pub child_named : String → List DocumentSymbol → Option DocumentSymbol
child_named n [] = none
child_named n (c ∷ cs) = if str_eq (name c) n then some c else child_named n cs

unfoldable pub walk : List String → DocumentSymbol → Option DocumentSymbol
walk [] current = some current
walk (n ∷ ns) current = elim (child_named n (children current)) [
  | none ↦ none
  | some child ↦ walk ns child
]

unfoldable pub at_path : List String → DocumentSymbol → Option DocumentSymbol
unfolding walk
at_path [] root = none
at_path (n ∷ ns) root = if str_eq n (name root) then walk ns root else none

-- `best_child is None or is_narrower(child.range, best_child.range)`
abbrev pub is_better : DocumentSymbol → Option DocumentSymbol → Bool
is_better child none = true
is_better child (some best) = is_narrower (range child) (range best)

-- The `for` loop over the children, with the best child so far.
unfoldable pub best_child :
    Position → List DocumentSymbol → Option DocumentSymbol → Option DocumentSymbol
best_child p [] best = best
best_child p (c ∷ cs) best =
    best_child p cs (if contains_pos (range c) p && is_better c best then some c else best)

unfoldable pub descend : ℕ → Position → DocumentSymbol → DocumentSymbol
descend zero p current = current
descend (suc fuel) p current = elim (best_child p (children current) none) [
  | none ↦ current
  | some child ↦ descend fuel p child
]

unfoldable pub at_position : Position → DocumentSymbol → Option DocumentSymbol
unfolding descend size
at_position p root = if contains_pos (range root) p then some (descend (size root) p root) else none

-- The stack with its top first: `extend(reversed(children))` puts the first child on top.
unfoldable pub dfs_loop : ℕ → List DocumentSymbol → List DocumentSymbol
dfs_loop zero stack = []
dfs_loop (suc fuel) [] = []
dfs_loop (suc fuel) (node ∷ stack) = node ∷ dfs_loop fuel (children node ++ stack)

unfoldable pub iter_dfs : DocumentSymbol → List DocumentSymbol
unfolding dfs_loop size
iter_dfs root = dfs_loop (size root) (root ∷ [])

unfoldable pub bfs_loop : ℕ → List DocumentSymbol → List DocumentSymbol
bfs_loop zero queue = []
bfs_loop (suc fuel) [] = []
bfs_loop (suc fuel) (node ∷ queue) = node ∷ bfs_loop fuel (queue ++ children node)

unfoldable pub iter_bfs : DocumentSymbol → List DocumentSymbol
unfolding bfs_loop size
iter_bfs root = bfs_loop (size root) (root ∷ [])
