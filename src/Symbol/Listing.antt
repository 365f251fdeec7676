-- ===== src/Symbol/Listing.antt =====
-- `flattened` as a listing of the symbols in preorder, of which the last at each path is kept.
use mathlib.Core.List.{append_assoc}
use lsp_client.Base.{
  ℕ, zero, suc, ◌+◌, ◌≤◌, ◌≡◌, refl, sym, ap, ◌∙◌, true, false, ◌&&◌, Option, none, some, [], ◌∷◌,
  ◌++◌, map, if◌then◌else◌, eq_iff, eq_refl, arith, Bool-cases, inl, inr,
}
use lsp_client.Symbol.{DocumentSymbol, Symbols, symbol, nil, cons, name, to_list, size, size_all}
use lsp_client.Symbol.Flat.{
  SymbolPath, same_symbols, Flattened, symbol_at, set_at, below, flatten_loop,
}

abbrev pub first_of : Option DocumentSymbol → Option DocumentSymbol → Option DocumentSymbol
first_of none o = o
first_of (some s) o = some s

-- The paths and symbols of a tree in preorder, below the path of its root.
unfoldable mutual
  pub listing : SymbolPath → DocumentSymbol → Flattened
  listing path (symbol n r s cs) = (path, symbol n r s cs) ∷ listing_all path cs

  pub listing_all : SymbolPath → Symbols → Flattened
  listing_all path nil = []
  listing_all path (cons c cs) = listing (path ++ name c ∷ []) c ++ listing_all path cs

abbrev pub forest : Flattened → Flattened
forest [] = []
forest ((path, s) ∷ ss) = listing path s ++ forest ss

unfoldable pub total : Flattened → ℕ
total [] = 0
total ((path, s) ∷ ss) = size s + total ss

unfoldable pub set_all : Flattened → Flattened → Flattened
set_all [] d = d
set_all ((p, s) ∷ l) d = set_all l (set_at p s d)

set_all-append : (xs ys d : Flattened) → set_all (xs ++ ys) d ≡ set_all ys (set_all xs d)
unfolding set_all
set_all-append [] ys d = refl
set_all-append ((p, s) ∷ xs) ys d = set_all-append xs ys (set_at p s d)

total-below :
    (path : SymbolPath) (cs : Symbols) (stack : Flattened)
    → total (map (below path) (to_list cs) ++ stack) ≡ size_all cs + total stack
unfolding total size_all
total-below path nil stack = omega arith
total-below path (cons c cs) stack = ground (arith, total-below path cs stack)

forest-below :
    (path : SymbolPath) (cs : Symbols) (stack : Flattened)
    → forest (map (below path) (to_list cs) ++ stack) ≡ listing_all path cs ++ forest stack
unfolding listing_all
forest-below path nil stack = refl
forest-below path (cons c cs) stack =
    ap (λ (l : Flattened). listing (path ++ name c ∷ []) c ++ l) (forest-below path cs stack)
    ∙ sym (append_assoc (listing (path ++ name c ∷ []) c) (listing_all path cs) (forest stack))

pub flatten_loop-set_all :
    (fuel : ℕ) (stack result : Flattened)
    → total stack ≤ fuel
    → flatten_loop fuel stack result ≡ set_all (forest stack) result
unfolding flatten_loop set_all total listing size
flatten_loop-set_all zero [] result h = refl
flatten_loop-set_all zero ((path, symbol n r s cs) ∷ ss) result h = absurd (omega arith)
flatten_loop-set_all (suc fuel) [] result h = refl
flatten_loop-set_all (suc fuel) ((path, symbol n r s cs) ∷ ss) result h =
    let enough : total (map (below path) (to_list cs) ++ ss) ≤ fuel =
      ground (arith, h, total-below path cs ss) in
    flatten_loop-set_all fuel (map (below path) (to_list cs) ++ ss)
      (set_at path (symbol n r s cs) result) enough
    ∙ ap (λ (l : Flattened). set_all l (set_at path (symbol n r s cs) result))
        (forest-below path cs ss)

same_symbols-eq : (p q : SymbolPath) → same_symbols p q ≡ true → p ≡ q
same_symbols-eq [] [] h = refl
same_symbols-eq [] (n ∷ q) h = absurd (ground (arith, h))
same_symbols-eq (m ∷ p) [] h = absurd (ground (arith, h))
same_symbols-eq (m ∷ p) (n ∷ q) h =
    let ih = same_symbols-eq p q in ground (arith, h, eq_iff m n, ih)

same_symbols_refl : (p : SymbolPath) → same_symbols p p ≡ true
same_symbols_refl [] = refl
same_symbols_refl (m ∷ p) = ground (arith, eq_refl m, same_symbols_refl p)

-- Two paths that differ are not both the same as a third.
same_symbols_apart :
    (r q p : SymbolPath) → same_symbols r q ≡ false → same_symbols r p && same_symbols q p ≡ false
same_symbols_apart r q p e = elim (Bool-cases (same_symbols r p && same_symbols q p)) [
  | inl h ↦
      let r_eq_p = same_symbols-eq r p (ground (arith, h)) in
      let q_eq_p = same_symbols-eq q p (ground (arith, h)) in
      absurd
        (ground (arith, e, same_symbols_refl q, ap (λ x. same_symbols x q) (r_eq_p ∙ sym q_eq_p)))
  | inr h ↦ h
]

symbol_at-set_at :
    (p q : SymbolPath) (s : DocumentSymbol) (d : Flattened)
    → symbol_at p (set_at q s d) ≡ (if same_symbols q p then some s else symbol_at p d)
unfolding symbol_at set_at
symbol_at-set_at p q s [] = refl
symbol_at-set_at p q s ((r, t) ∷ d) = elim (Bool-cases (same_symbols r q)) [
  | inl e ↦ ground (arith, e, ap (λ x. same_symbols x p) (same_symbols-eq r q e))
  | inr e ↦ ground (arith, e, symbol_at-set_at p q s d, same_symbols_apart r q p e)
]

unfoldable pub last_of : SymbolPath → Flattened → Option DocumentSymbol
last_of p [] = none
last_of p ((q, s) ∷ l) = first_of (last_of p l) (if same_symbols q p then some s else none)

first_of_assoc :
    (a b c : Option DocumentSymbol) → first_of (first_of a b) c ≡ first_of a (first_of b c)
first_of_assoc none b c = refl
first_of_assoc (some s) b c = refl

pub first_of-none : (a : Option DocumentSymbol) → first_of a none ≡ a
first_of-none none = refl
first_of-none (some s) = refl

pub symbol_at-set_all :
    (p : SymbolPath) (l d : Flattened)
    → symbol_at p (set_all l d) ≡ first_of (last_of p l) (symbol_at p d)
unfolding set_all last_of
symbol_at-set_all p [] d = refl
symbol_at-set_all p ((q, s) ∷ l) d =
    symbol_at-set_all p l (set_at q s d)
    ∙ ap (first_of (last_of p l)) (symbol_at-set_at p q s d)
    ∙ merge (last_of p l)
  where
    merge :
        (a : Option DocumentSymbol)
        → first_of a (if same_symbols q p then some s else symbol_at p d)
          ≡ first_of (first_of a (if same_symbols q p then some s else none)) (symbol_at p d)
    merge none = ground arith
    merge (some t) = refl

pub last_of-append :
    (p : SymbolPath) (xs ys : Flattened)
    → last_of p (xs ++ ys) ≡ first_of (last_of p ys) (last_of p xs)
unfolding last_of
last_of-append p [] ys = sym (first_of-none (last_of p ys))
last_of-append p ((q, s) ∷ xs) ys = rw (last_of-append p xs ys, first_of_assoc) refl
