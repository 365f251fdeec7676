-- ===== src/Symbol/Paths.antt =====
-- `flattened` agrees with `at_path` where no two children of a symbol have the same name.
use lsp_client.Base.{
  ◌≤◌, ◌≡◌, refl, sym, ap, ◌∙◌, String, Bool, true, false, ◌&&◌, not, Option, none, some, List, [],
  ◌∷◌, ◌++◌, if◌then◌else◌, str_eq, eq_iff, is_some, arith, Bool-cases, inl, inr,
}
use lsp_client.Symbol.{
  DocumentSymbol, Symbols, symbol, nil, cons, name, to_list, size, child_named, walk, at_path,
}
use lsp_client.Lsp.{Range}
use lsp_client.Symbol.Flat.{SymbolPath, same_symbols, symbol_at, flattened}
use lsp_client.Symbol.Listing.{
  first_of, listing, listing_all, total, last_of, first_of-none, last_of-append, symbol_at-set_all,
  flatten_loop-set_all,
}

-- What is left of a path after a prefix of it.
abbrev pub after : SymbolPath → SymbolPath → Option SymbolPath
after [] p = some p
after (m ∷ path) [] = none
after (m ∷ path) (n ∷ p) = if str_eq m n then after path p else none

abbrev then_name : String → Option SymbolPath → Option SymbolPath
then_name n none = none
then_name n (some []) = none
then_name n (some (k ∷ rest)) = if str_eq n k then some rest else none

abbrev is_end : Option SymbolPath → Bool
is_end none = false
is_end (some []) = true
is_end (some (k ∷ rest)) = false

after-snoc :
    (path : SymbolPath) (n : String) (p : SymbolPath)
    → after (path ++ n ∷ []) p ≡ then_name n (after path p)
after-snoc [] n [] = refl
after-snoc [] n (k ∷ p) = refl
after-snoc (m ∷ path) n [] = refl
after-snoc (m ∷ path) n (k ∷ p) = ground (arith, after-snoc path n p)

same_symbols-after : (path p : SymbolPath) → same_symbols path p ≡ is_end (after path p)
same_symbols-after [] [] = refl
same_symbols-after [] (k ∷ p) = refl
same_symbols-after (m ∷ path) [] = refl
same_symbols-after (m ∷ path) (k ∷ p) = ground (arith, same_symbols-after path p)

-- No two children of a symbol have the same name.
unfoldable mutual
  pub distinct : DocumentSymbol → Bool
  distinct (symbol n r s cs) = distinct_all cs

  pub distinct_all : Symbols → Bool
  distinct_all nil = true
  distinct_all (cons c cs) =
      not (is_some (child_named (name c) (to_list cs))) && (distinct c && distinct_all cs)

abbrev walked : Option SymbolPath → DocumentSymbol → Option DocumentSymbol
walked none node = none
walked (some rest) node = walk rest node

abbrev walked_child : List String → Option DocumentSymbol → Option DocumentSymbol
walked_child rest none = none
walked_child rest (some c) = walk rest c

abbrev among : Option SymbolPath → Symbols → Option DocumentSymbol
among none cs = none
among (some []) cs = none
among (some (k ∷ rest)) cs = walked_child rest (child_named k (to_list cs))

node_or_below :
    (o : Option SymbolPath) (n : String) (r s : Range) (cs : Symbols)
    → first_of (among o cs) (if is_end o then some (symbol n r s cs) else none)
      ≡ walked o (symbol n r s cs)
unfolding walk
node_or_below none n r s cs = refl
node_or_below (some []) n r s cs = refl
node_or_below (some (k ∷ rest)) n r s cs =
    first_of-none (walked_child rest (child_named k (to_list cs)))

is_none : (o : Option DocumentSymbol) → is_some o ≡ false → o ≡ none
is_none none h = refl
is_none (some c) h = absurd (ground (arith, h))

child_or_rest :
    (o : Option SymbolPath) (c : DocumentSymbol) (cs : Symbols)
    → is_some (child_named (name c) (to_list cs)) ≡ false
    → first_of (among o cs) (walked (then_name (name c) o) c) ≡ among o (cons c cs)
unfolding child_named
child_or_rest none c cs h = refl
child_or_rest (some []) c cs h = refl
child_or_rest (some (k ∷ rest)) c cs h = elim (Bool-cases (str_eq (name c) k)) [
  | inl e ↦
      let missing : child_named k (to_list cs) ≡ none =
        is_none (child_named k (to_list cs)) (rw (sym ((eq_iff (name c) k).0 e)) h) in
      rw (e, missing) refl
  | inr e ↦ rw (e) (first_of-none (walked_child rest (child_named k (to_list cs))))
]

among-nil : (o : Option SymbolPath) → among o nil ≡ none
unfolding child_named
among-nil none = refl
among-nil (some []) = refl
among-nil (some (k ∷ rest)) = refl

mutual
  unfolding last_of listing distinct

  last_of-listing :
      (path p : SymbolPath) (node : DocumentSymbol)
      → distinct node ≡ true
      → last_of p (listing path node) ≡ walked (after path p) node
  last_of-listing path p (symbol n r s cs) h =
      rw (last_of-listing_all path p cs h, same_symbols-after path p)
        (node_or_below (after path p) n r s cs)

  last_of-listing_all :
      (path p : SymbolPath) (cs : Symbols)
      → distinct_all cs ≡ true
      → last_of p (listing_all path cs) ≡ among (after path p) cs
  last_of-listing_all path p nil h = sym (among-nil (after path p))
  last_of-listing_all path p (cons c cs) h =
      last_of-append p (listing (path ++ name c ∷ []) c) (listing_all path cs)
      ∙ rw
          (
            last_of-listing_all path p cs (ground (arith, h)),
            last_of-listing (path ++ name c ∷ []) p c (ground (arith, h)),
            after-snoc path (name c) p,
          )
          (child_or_rest (after path p) c cs (ground (arith, h)))

total-root : (root : DocumentSymbol) → total ((name root ∷ [], root) ∷ []) ≤ size root
unfolding total
total-root root = omega arith

walked-after :
    (root : DocumentSymbol) (p : SymbolPath)
    → walked (after (name root ∷ []) p) root ≡ at_path p root
unfolding at_path
walked-after root [] = refl
walked-after root (n ∷ p) = ground (arith, eq_iff (name root) n, eq_iff n (name root))

-- Where no two children of a symbol have the same name, the flat dict of a tree has at each path
-- the symbol that at_path finds there, and nothing at the other paths.
pub flattened-at_path :
    (root : DocumentSymbol) (p : SymbolPath)
    → distinct root ≡ true
    → symbol_at p (flattened root) ≡ at_path p root
unfolding flattened last_of symbol_at
flattened-at_path root p h =
    ap (symbol_at p)
      (flatten_loop-set_all (size root) ((name root ∷ [], root) ∷ []) [] (total-root root))
    ∙ symbol_at-set_all p (listing (name root ∷ []) root ++ []) []
    ∙ at_root (last_of p (listing (name root ∷ []) root ++ [])) (
        last_of-append p (listing (name root ∷ []) root) []
        ∙ last_of-listing (name root ∷ []) p root h
        ∙ walked-after root p)
  where
    at_root : (o : Option DocumentSymbol) → o ≡ at_path p root → first_of o none ≡ at_path p root
    at_root o e = first_of-none o ∙ e
