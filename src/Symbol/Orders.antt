-- ===== src/Symbol/Orders.antt =====
-- The two traversals list every symbol of the tree.
use mathlib.Core.List.{Perm, perm_append_comm, append_assoc, append-nil}
use mathlib.Core.List.Perm
use lsp_client.Base.{
  ℕ, zero, suc, ◌+◌, ◌≤◌, ◌≡◌, refl, sym, ap, ◌∙◌, subst, List, [], ◌∷◌, ◌++◌, arith,
}
use lsp_client.Symbol.{
  DocumentSymbol, Symbols, symbol, nil, cons, children, size, size_all, dfs_loop, iter_dfs,
  bfs_loop, iter_bfs,
}

-- The symbols of a tree, each before its descendants and those before its later siblings.
unfoldable mutual
  pub preorder : DocumentSymbol → List DocumentSymbol
  preorder (symbol n r s cs) = symbol n r s cs ∷ preorder_all cs

  pub preorder_all : Symbols → List DocumentSymbol
  preorder_all nil = []
  preorder_all (cons s cs) = preorder s ++ preorder_all cs

-- The same for the trees of a list.
abbrev forest : List DocumentSymbol → List DocumentSymbol
forest [] = []
forest (s ∷ ss) = preorder s ++ forest ss

unfoldable total : List DocumentSymbol → ℕ
total [] = 0
total (s ∷ ss) = size s + total ss

total-append : (xs ys : List DocumentSymbol) → total (xs ++ ys) ≡ total xs + total ys
unfolding total
total-append [] ys = omega arith
total-append (x ∷ xs) ys = ground (arith, total-append xs ys)

forest-append : (xs ys : List DocumentSymbol) → forest (xs ++ ys) ≡ forest xs ++ forest ys
forest-append [] ys = refl
forest-append (x ∷ xs) ys =
    ap (λ (l : List DocumentSymbol). preorder x ++ l) (forest-append xs ys)
    ∙ sym (append_assoc (preorder x) (forest xs) (forest ys))

total-children : (s : DocumentSymbol) → size s ≡ suc (total (children s))
unfolding size total
total-children (symbol n r t cs) = ap suc (go cs)
  where
    go : (cs : Symbols) → size_all cs ≡ total (children (symbol n r t cs))
    go nil = refl
    go (cons c cs) = ground (arith, go cs)

preorder-children : (s : DocumentSymbol) → preorder s ≡ s ∷ forest (children s)
unfolding preorder
preorder-children (symbol n r t cs) = ap (λ (l : List DocumentSymbol). symbol n r t cs ∷ l) (go cs)
  where
    go : (cs : Symbols) → preorder_all cs ≡ forest (children (symbol n r t cs))
    go nil = refl
    go (cons c cs) = ap (λ (l : List DocumentSymbol). preorder c ++ l) (go cs)

dfs_loop-forest :
    (fuel : ℕ) (stack : List DocumentSymbol)
    → total stack ≤ fuel
    → dfs_loop fuel stack ≡ forest stack
unfolding dfs_loop total
dfs_loop-forest zero [] h = refl
dfs_loop-forest zero (s ∷ ss) h = ground (arith, h, total-children s)
dfs_loop-forest (suc fuel) [] h = refl
dfs_loop-forest (suc fuel) (s ∷ ss) h =
    let enough : total (children s ++ ss) ≤ fuel =
      ground (arith, h, total-children s, total-append (children s) ss) in
    ap (λ (l : List DocumentSymbol). s ∷ l)
      (dfs_loop-forest fuel (children s ++ ss) enough ∙ forest-append (children s) ss)
    ∙ ap (λ (l : List DocumentSymbol). l ++ forest ss) (sym (preorder-children s))

-- The depth-first traversal lists the symbols of the tree in preorder, and runs to its end.
pub iter_dfs-eq-preorder : (root : DocumentSymbol) → iter_dfs root ≡ preorder root
unfolding iter_dfs total
iter_dfs-eq-preorder root =
    dfs_loop-forest (size root) (root ∷ []) (omega arith) ∙ append-nil (preorder root)

bfs_loop-perm :
    (fuel : ℕ) (queue : List DocumentSymbol)
    → total queue ≤ fuel
    → Perm (bfs_loop fuel queue) (forest queue)
unfolding bfs_loop total
bfs_loop-perm zero [] h = Perm.refl []
bfs_loop-perm zero (s ∷ ss) h = ground (arith, h, total-children s)
bfs_loop-perm (suc fuel) [] h = Perm.refl []
bfs_loop-perm (suc fuel) (s ∷ ss) h =
    let enough : total (ss ++ children s) ≤ fuel =
      ground (arith, h, total-children s, total-append ss (children s)) in
    let ih : Perm (bfs_loop fuel (ss ++ children s)) (forest (ss ++ children s)) =
      bfs_loop-perm fuel (ss ++ children s) enough in
    let parts : Perm (forest (ss ++ children s)) (forest (children s) ++ forest ss) =
      subst (λ l. Perm l (forest (children s) ++ forest ss)) (sym (forest-append ss (children s)))
        (perm_append_comm (forest ss) (forest (children s))) in
    subst (λ l. Perm (s ∷ bfs_loop fuel (ss ++ children s)) (l ++ forest ss))
      (sym (preorder-children s)) (Perm.cons s (Perm.trans ih parts))

-- The breadth-first traversal lists each symbol of the tree as often as it is there, and no other.
pub iter_bfs-perm : (root : DocumentSymbol) → Perm (iter_bfs root) (preorder root)
unfolding iter_bfs total
iter_bfs-perm root =
    subst (Perm (bfs_loop (size root) (root ∷ []))) (append-nil (preorder root))
      (bfs_loop-perm (size root) (root ∷ []) (omega arith))
