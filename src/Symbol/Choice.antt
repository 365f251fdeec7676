-- ===== src/Symbol/Choice.antt =====
-- Which child the lookup by position goes down to: a narrowest of those that have the position.
use lsp_client.Base.{
  ℕ, suc, ◌≤◌, ◌<◌, ◌≡◌, subst, ◌⊎◌, inl, inr, true, false, ◌&&◌, Option, none, some, List, [], ◌∷◌,
  ◌++◌, ap, arith, Bool, ◌↔◌, All, Bool-cases,
}
use mathlib.Core.Option.{some-injective}
use lsp_client.Lsp.{Position, le_pos, lt_pos}
use lsp_client.Symbol.{
  DocumentSymbol, Symbols, symbol, nil, cons, range, children, size, size_all, contains_pos,
  is_better, is_narrower, best_child,
}

-- The symbol has the position in its range.
abbrev pub Covers : Position → DocumentSymbol → Type 0
Covers p s = contains_pos (range s) p ≡ true

abbrev pub Misses : Position → DocumentSymbol → Type 0
Misses p s = contains_pos (range s) p ≡ false

abbrev pub SmallerThan : ℕ → DocumentSymbol → Type 0
SmallerThan n s = size s < n

-- No best child: there was none before, and no child has the position.
pub best_child-none :
    (p : Position) (cs : List DocumentSymbol) (best : Option DocumentSymbol)
    → best_child p cs best ≡ none
    → (best ≡ none) × All (Misses p) cs
unfolding best_child
best_child-none p [] best h = (h, tt)
best_child-none p (c ∷ cs) best h =
    let ih = best_child-none p cs _ h in (ground (arith, ih.0), (ground (arith, ih.0), ih.1))

-- A best child has the position, and is not larger than the children are.
pub best_child-some :
    (p : Position) (n : ℕ) (cs : List DocumentSymbol) (best : Option DocumentSymbol)
    (r : DocumentSymbol)
    → All (SmallerThan n) cs
    → ((b : DocumentSymbol) → best ≡ some b → Covers p b × SmallerThan n b)
    → best_child p cs best ≡ some r
    → Covers p r × SmallerThan n r
unfolding best_child
best_child-some p n [] best r small before h = before r h
best_child-some p n (c ∷ cs) best r small before h =
    elim (Bool-cases (contains_pos (range c) p && is_better c best)) [
      | inl better ↦
          best_child-some p n cs (some c) r small.1
            (λ b e.
              subst (λ d. Covers p d × SmallerThan n d) (ground (arith, e))
                (ground (arith, better), small.0))
            (ground (arith, h, better))
      | inr worse ↦ best_child-some p n cs best r small.1 before (ground (arith, h, worse))
    ]

pub children-smaller : (s : DocumentSymbol) → All (SmallerThan (size s)) (children s)
unfolding size
children-smaller (symbol n r t cs) = go (size_all cs) cs (omega arith)
  where
    go :
        (k : ℕ) (cs : Symbols)
        → size_all cs ≤ k
        → All (SmallerThan (suc k)) (children (symbol n r t cs))
    go k nil h = tt
    go k (cons c cs) h = (omega (arith, h), go k cs (omega (arith, h)))

-- What the code compares, on lines and characters: a position stands before another.
abbrev pub Before : Position → Position → Type 0
Before p q = (p.line < q.line) ⊎ ((p.line ≡ q.line) × (p.character < q.character))

-- The position is not before the start of the range, and before its end.
abbrev pub Has : Position → DocumentSymbol → Type 0
Has p s = (¬ Before p (range s).start) × Before p (range s).end

-- The range of a symbol is within that of another.
abbrev pub Within : DocumentSymbol → DocumentSymbol → Type 0
Within inner outer =
    (¬ Before (range inner).start (range outer).start)
    × (¬ Before (range outer).end (range inner).end)

lt_pos_iff : (p q : Position) → (lt_pos p q ≡ true) ↔ Before p q
lt_pos_iff p q = ground arith

le_pos_iff : (p q : Position) → (le_pos p q ≡ true) ↔ (¬ Before q p)
le_pos_iff p q = ground arith

pub contains_pos_iff :
    (p : Position) (s : DocumentSymbol) → (contains_pos (range s) p ≡ true) ↔ Has p s
unfolding contains_pos
contains_pos_iff p s = ground (arith, le_pos_iff (range s).start p, lt_pos_iff p (range s).end)

abbrev pub narrower : DocumentSymbol → DocumentSymbol → Bool
narrower c d = is_narrower (range c) (range d)

pub narrower_iff : (c d : DocumentSymbol) → (narrower c d ≡ true) ↔ Within c d
unfolding is_narrower
narrower_iff c d =
    ground
      (arith, le_pos_iff (range d).start (range c).start, le_pos_iff (range c).end (range d).end)

narrower_trans :
    (a b c : DocumentSymbol) → narrower a b ≡ true → narrower b c ≡ true → narrower a c ≡ true
unfolding is_narrower
narrower_trans a b c h k = ground (arith, h, k)

narrower_refl : (a : DocumentSymbol) → narrower a a ≡ true
unfolding is_narrower
narrower_refl a = ground arith

best_child-narrower :
    (p : Position) (cs : List DocumentSymbol) (b r : DocumentSymbol)
    → best_child p cs (some b) ≡ some r
    → narrower r b ≡ true
unfolding best_child
best_child-narrower p [] b r h =
    subst (λ x. narrower x b ≡ true) (some-injective b r h) (narrower_refl b)
best_child-narrower p (c ∷ cs) b r h =
    elim (Bool-cases (contains_pos (range c) p && narrower c b)) [
      | inl better ↦
          narrower_trans r c b (best_child-narrower p cs c r (ground (arith, h, better)))
            (ground (arith, better))
      | inr worse ↦ best_child-narrower p cs b r (ground (arith, h, worse))
    ]

-- A child that has the position and that no other child which has it is narrower than.
abbrev pub IsLeast : Position → DocumentSymbol → DocumentSymbol → Type 0
IsLeast p best d = contains_pos (range d) p ≡ true → narrower d best ≡ true → narrower best d ≡ true

pub best_child-IsLeast :
    (p : Position) (cs : List DocumentSymbol) (best : Option DocumentSymbol) (r : DocumentSymbol)
    → best_child p cs best ≡ some r
    → All (IsLeast p r) cs
unfolding best_child
best_child-IsLeast p [] best r h = tt
best_child-IsLeast p (c ∷ cs) best r h =
    elim (Bool-cases (contains_pos (range c) p && is_better c best)) [
      | inl better ↦
          let g : best_child p cs (some c) ≡ some r = ground (arith, h, better) in
          (λ k n. best_child-narrower p cs c r g, best_child-IsLeast p cs (some c) r g)
      | inr worse ↦
          let g : best_child p cs best ≡ some r = ground (arith, h, worse) in
          (λ k n. absurd (beaten best k n worse g), best_child-IsLeast p cs best r g)
    ]
  where
    beaten :
        (o : Option DocumentSymbol)
        → contains_pos (range c) p ≡ true
        → narrower c r ≡ true
        → (contains_pos (range c) p && is_better c o) ≡ false
        → best_child p cs o ≡ some r
        → ⊥
    beaten none k n w g = ground (arith, k, w)
    beaten (some b) k n w g =
        let m = narrower_trans c r b n (best_child-narrower p cs b r g) in ground (arith, k, w, m)

abbrev pub IsIn : DocumentSymbol → List DocumentSymbol → Type 0
IsIn s l =
    (before : List DocumentSymbol) × (after : List DocumentSymbol) × (l ≡ before ++ s ∷ after)

pub best_child-IsIn :
    (p : Position) (cs : List DocumentSymbol) (best : Option DocumentSymbol) (r : DocumentSymbol)
    → best_child p cs best ≡ some r
    → (best ≡ some r) ⊎ IsIn r cs
unfolding best_child
best_child-IsIn p [] best r h = inl h
best_child-IsIn p (c ∷ cs) best r h =
    elim (Bool-cases (contains_pos (range c) p && is_better c best)) [
      | inl better ↦ first (best_child-IsIn p cs (some c) r (ground (arith, h, better)))
      | inr worse ↦ later (best_child-IsIn p cs best r (ground (arith, h, worse)))
    ]
  where
    later : (best ≡ some r) ⊎ IsIn r cs → (best ≡ some r) ⊎ IsIn r (c ∷ cs)
    later (inl e) = inl e
    later (inr (before, after, e)) = inr (c ∷ before, after, ap (λ l. c ∷ l) e)

    first : (some c ≡ some r) ⊎ IsIn r cs → (best ≡ some r) ⊎ IsIn r (c ∷ cs)
    first (inl e) = inr ([], cs, ap (λ x. x ∷ cs) (some-injective c r e))
    first (inr (before, after, e)) = inr (c ∷ before, after, ap (λ l. c ∷ l) e)
