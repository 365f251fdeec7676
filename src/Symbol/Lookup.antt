-- ===== src/Symbol/Lookup.antt =====
-- What the lookup by position finds.
use lsp_client.Base.{
  ℕ, zero, suc, ◌≤◌, ◌≡◌, refl, ◌⊎◌, inl, inr, Option, none, some, List, [], ◌∷◌, arith, All,
  Bool-cases,
}
use lsp_client.Lsp.{Position}
use lsp_client.Symbol.{
  DocumentSymbol, symbol, range, children, size, contains_pos, best_child, descend, at_position,
}
use lsp_client.Symbol.Choice.{
  Covers, Misses, Has, Within, IsLeast, IsIn, best_child-none, best_child-some, children-smaller,
  contains_pos_iff, narrower_iff, best_child-IsLeast, best_child-IsIn,
}

-- A child of the list which has the position, and within whose range no child with the position
-- lies, but for one of the same range.
abbrev pub IsNarrowest : Position → List DocumentSymbol → DocumentSymbol → Type 0
IsNarrowest p cs c = IsIn c cs × Has p c × All (λ d. Has p d → Within d c → Within c d) cs

-- The way down from a symbol, through a narrowest child each time, to one none of whose children
-- has the position.
pub data Leads (p : Position) : DocumentSymbol → DocumentSymbol → Type 0 where
  ends : (s : DocumentSymbol) → All (λ c. ¬ Has p c) (children s) → Leads p s s
  descends : (s c r : DocumentSymbol) → IsNarrowest p (children s) c → Leads p c r → Leads p s r

not-Has : (p : Position) (s : DocumentSymbol) → Misses p s → ¬ Has p s
not-Has p s m k = ground (arith, m, (contains_pos_iff p s).1 k)

All-not-Has :
    (p : Position) (cs : List DocumentSymbol) → All (Misses p) cs → All (λ c. ¬ Has p c) cs
All-not-Has p [] a = tt
All-not-Has p (c ∷ cs) a = (not-Has p c a.0, All-not-Has p cs a.1)

All-Within :
    (p : Position) (c : DocumentSymbol) (cs : List DocumentSymbol)
    → All (IsLeast p c) cs
    → All (λ d. Has p d → Within d c → Within c d) cs
All-Within p c [] a = tt
All-Within p c (d ∷ ds) a = (
  λ k w. (narrower_iff c d).0 (a.0 ((contains_pos_iff p d).1 k) ((narrower_iff d c).1 w)),
  All-Within p c ds a.1,
)

best_child-IsNarrowest :
    (p : Position) (cs : List DocumentSymbol) (c : DocumentSymbol)
    → best_child p cs none ≡ some c
    → Covers p c
    → IsNarrowest p cs c
best_child-IsNarrowest p cs c h k = (
  found (best_child-IsIn p cs none c h),
  (contains_pos_iff p c).0 k,
  All-Within p c cs (best_child-IsLeast p cs none c h),
)
  where
    found : (none ≡ some c) ⊎ IsIn c cs → IsIn c cs
    found (inl e) = absurd (cc)
    found (inr i) = i

descend-Leads :
    (fuel : ℕ) (p : Position) (s : DocumentSymbol) → size s ≤ fuel → Leads p s (descend fuel p s)
unfolding descend
descend-Leads zero p (symbol n r t cs) h = absurd (unfold size in omega (arith, h))
descend-Leads (suc fuel) p s h =
    go (best_child p (children s) none) refl (λ c k. descend-Leads fuel p c k)
  where
    go :
        (o : Option DocumentSymbol)
        → best_child p (children s) none ≡ o
        → ((c : DocumentSymbol) → size c ≤ fuel → Leads p c (descend fuel p c))
        → Leads p s (elim o [ none ↦ s | some child ↦ descend fuel p child ])
    go none e ih = ends s (All-not-Has p (children s) (best_child-none p (children s) none e).1)
    go (some c) e ih =
        let b = best_child-some p (size s) (children s) none c (children-smaller s) (λ b f. cc) e in
        descends s c (descend fuel p c) (best_child-IsNarrowest p (children s) c e b.0)
          (ih c (omega (arith, h, b.1)))

-- A position outside the root's range finds nothing. Every other one finds the symbol that a way
-- down from the root leads to: in each step to a child which has the position and is narrowest
-- among the children that have it, until no child has it. A range has the positions from its start
-- to before its end, by lines and then characters.
pub at_position_lem :
    (p : Position) (root : DocumentSymbol)
    → ((¬ Has p root) × (at_position p root ≡ none))
      ⊎ ((s : DocumentSymbol) × (at_position p root ≡ some s) × Has p root × Leads p root s)
unfolding at_position
at_position_lem p root = elim (Bool-cases (contains_pos (range root) p)) [
  | inl within ↦ inr (
    descend (size root) p root,
    ground (arith, within),
    (contains_pos_iff p root).0 within,
    descend-Leads (size root) p root (omega arith),
  )
  | inr out ↦ inl (not-Has p root out, ground (arith, out))
]
