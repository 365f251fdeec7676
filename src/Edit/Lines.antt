-- ===== src/Edit/Lines.antt =====
-- Splitting a text into lines, and the text on both sides of a position.
use lsp_client.Base.{
  ℕ, zero, suc, ◌+◌, ◌≤◌, ◌<◌, ◌≡◌, refl, sym, ap, ◌∙◌, List, [], ◌∷◌, ◌++◌, length, get_or, set,
  take, drop, arith, take-append, drop-append, take-append_add, drop-append_add,
}
use mathlib.Core.List.{append_assoc}
use lsp_client.Host.{Text}
use lsp_client.Lsp.{Position}
use lsp_client.Edit.{split_lines, concat, prepend}

concat-prepend : (c : ℕ) (ls : List Text) → concat (prepend c ls) ≡ c ∷ concat ls
concat-prepend c [] = refl
concat-prepend c (l ∷ ls) = refl

-- Joining the lines of a text gives the text back.
pub concat-split_lines : (t : Text) → concat (split_lines t) ≡ t
unfolding split_lines
concat-split_lines [] = refl
concat-split_lines (c ∷ []) = refl
concat-split_lines (c ∷ d ∷ cs) = ground (
  arith,
  concat-split_lines (d ∷ cs),
  concat-split_lines cs,
  concat-prepend c (split_lines (d ∷ cs)),
)

pub concat-append : (xs ys : List Text) → concat (xs ++ ys) ≡ concat xs ++ concat ys
concat-append [] ys = refl
concat-append (x ∷ xs) ys =
    ap (λ (t : Text). x ++ t) (concat-append xs ys) ∙ sym (append_assoc x (concat xs) (concat ys))

-- The offset of a position in the joined lines.
abbrev pub offset : List Text → Position → ℕ
offset lines p = length (concat (take p.line lines)) + p.character

-- The position stands in a line that is there, at or before its end.
abbrev pub InLine : List Text → Position → Type 0
InLine lines p = (p.line < length lines) × (p.character ≤ length (get_or lines p.line []))

-- A text in three parts: the lines before one, the line, and those behind it.
pub concat_at :
    (lines : List Text) (i : ℕ)
    → i < length lines
    → concat lines ≡ concat (take i lines) ++ (get_or lines i [] ++ concat (drop (suc i) lines))
concat_at [] i h = absurd (omega arith)
concat_at (l ∷ ls) zero h = refl
concat_at (l ∷ ls) (suc i) h =
    ap (λ (t : Text). l ++ t) (concat_at ls i (omega arith)) ∙ sym (append_assoc l _ _)

module _ (lines : List Text) (p : Position) (h : InLine lines p) where
  pub take-offset :
      take (offset lines p) (concat lines)
      ≡ concat (take p.line lines) ++ take p.character (get_or lines p.line [])
  take-offset =
      ap (take (offset lines p)) (concat_at lines p.line h.0)
      ∙ take-append_add p.character (concat (take p.line lines)) _
      ∙ ap (λ (t : Text). concat (take p.line lines) ++ t)
          (take-append p.character (get_or lines p.line []) _ h.1)

  pub drop-offset :
      drop (offset lines p) (concat lines)
      ≡ drop p.character (get_or lines p.line []) ++ concat (drop (suc p.line) lines)
  drop-offset =
      ap (drop (offset lines p)) (concat_at lines p.line h.0)
      ∙ drop-append_add p.character (concat (take p.line lines)) _
      ∙ drop-append p.character (get_or lines p.line []) _ h.1

module _ {A : Type 0} where
  pub set-eq :
      (xs : List A) (i : ℕ) (x : A)
      → i < length xs
      → set xs i x ≡ take i xs ++ (x ∷ drop (suc i) xs)
  set-eq [] i x h = absurd (omega arith)
  set-eq (y ∷ ys) zero x h = refl
  set-eq (y ∷ ys) (suc i) x h = ap (◌∷◌ y) (set-eq ys i x (omega arith))

  pub take-set :
      (xs : List A) (i : ℕ) (x : A)
      → i < length xs
      → take (suc i) (set xs i x) ≡ take i xs ++ (x ∷ [])
  take-set [] i x h = absurd (omega arith)
  take-set (y ∷ ys) zero x h = refl
  take-set (y ∷ ys) (suc i) x h = ap (◌∷◌ y) (take-set ys i x (omega arith))

  pub drop-set : (xs : List A) (i j : ℕ) (x : A) → i < j → drop j (set xs i x) ≡ drop j xs
  drop-set [] i j x h = refl
  drop-set (y ∷ ys) i zero x h = absurd (omega arith)
  drop-set (y ∷ ys) zero (suc j) x h = refl
  drop-set (y ∷ ys) (suc i) (suc j) x h = drop-set ys i j x (omega arith)

  pub length-set : (xs : List A) (i : ℕ) (x : A) → length (set xs i x) ≡ length xs
  length-set [] i x = refl
  length-set (y ∷ ys) zero x = refl
  length-set (y ∷ ys) (suc i) x = ap suc (length-set ys i x)

  -- The items before a place, when the list is cut at a later one.
  pub take-take_append :
      (xs ys : List A) (k i : ℕ) → k ≤ i → i ≤ length xs → take k (take i xs ++ ys) ≡ take k xs
  take-take_append xs ys zero i h g = refl
  take-take_append [] ys (suc k) i h g = absurd (omega arith)
  take-take_append (x ∷ xs) ys (suc k) zero h g = absurd (omega arith)
  take-take_append (x ∷ xs) ys (suc k) (suc i) h g =
      ap (◌∷◌ x) (take-take_append xs ys k i (omega arith) (omega arith))

  pub get_or-take_append :
      (xs ys : List A) (k i : ℕ) (d : A)
      → k < i
      → i ≤ length xs
      → get_or (take i xs ++ ys) k d ≡ get_or xs k d
  get_or-take_append [] ys k i d h g = absurd (omega arith)
  get_or-take_append (x ∷ xs) ys k zero d h g = absurd (omega arith)
  get_or-take_append (x ∷ xs) ys zero (suc i) d h g = refl
  get_or-take_append (x ∷ xs) ys (suc k) (suc i) d h g =
      get_or-take_append xs ys k i d (omega arith) (omega arith)

  pub get_or-take_here :
      (xs ys : List A) (i : ℕ) (y d : A) → i ≤ length xs → get_or (take i xs ++ (y ∷ ys)) i d ≡ y
  get_or-take_here xs ys zero y d g = refl
  get_or-take_here [] ys (suc i) y d g = absurd (omega arith)
  get_or-take_here (x ∷ xs) ys (suc i) y d g = get_or-take_here xs ys i y d (omega arith)
