-- ===== src/Edit/Gaps.antt =====
-- Edits that `apply_text_edits` does not apply as the protocol defines them.
use lsp_client.Base.{
  ℕ, zero, suc, ◌+◌, ◌≤◌, ◌<◌, ◌≡◌, refl, sym, ap, ◌∙◌, true, false, List, [], ◌∷◌, ◌++◌, ltb, leb,
  ◌==◌, length, get_or, set, take, drop, arith, length-append, take-append-drop,
}
use mathlib.Core.List.{append_assoc, append-nil}
use native.Mathlib.Nat.{le_trans, le_of_eq}
use mathlib.Core.Path.{subst}
use lsp_client.Host.{Text}
use lsp_client.Lsp.{Position, le_pos}
use lsp_client.Edit.{
  AnyTextEdit, range, get_edit_text, concat, apply_one, apply_text_edits, split_lines, insert_edit,
}
use lsp_client.Edit.Lines.{concat-append, offset, set-eq, length-set, concat-split_lines}
use lsp_client.Edit.Splice.{InRange, splice}
use lsp_client.Edit.Splice.{joined, apply_one-eq, concat-apply_one}
use lsp_client.Edit.Lines.{get_or-take_here, take-take_append}
use lsp_client.Edit.Sequence.{offset-apply_one}

pub apply_past_end :
    (lines : List Text) (e : AnyTextEdit)
    → (range e).start.line < length lines
    → length lines ≤ (range e).end.line
    → concat (apply_one lines e)
      ≡ concat (take (range e).start.line lines)
        ++ (take (range e).start.character (get_or lines (range e).start.line [])
            ++ (get_edit_text e ++ concat (drop (suc (range e).start.line) lines)))
unfolding apply_one
apply_past_end lines e h k =
    let i : ℕ = (range e).start.line in
    let j : ℕ = (range e).end.line in
    let before : Text = take (range e).start.character (get_or lines i []) in
    let text : Text = get_edit_text e in
    let rest : Text = drop (range e).end.character [] in
    let empty : rest ≡ [] = drop-nil (range e).end.character in
    let x : Text = before ++ (text ++ rest) in
    let a : leb (length lines) i ≡ false = ground (arith, h) in
    let b : leb (length lines) j ≡ true = ground (arith, k) in
    let c : (i == j) ≡ false = ground (arith, h, k) in
    let d : ltb j (length (set lines i x)) ≡ false = ground (arith, length-set lines i x, k) in
    let now : apply_one lines e ≡ set lines i x = ground (arith, a, b, c, d) in
    ap concat (now ∙ set-eq lines i x h)
    ∙ concat-append (take i lines) (x ∷ drop (suc i) lines)
    ∙ ap
        (λ (t : Text).
          concat (take i lines) ++ ((before ++ (text ++ t)) ++ concat (drop (suc i) lines)))
        empty
    ∙ ap (λ (t : Text). concat (take i lines) ++ ((before ++ t) ++ concat (drop (suc i) lines)))
        (append-nil text)
    ∙ ap (λ (t : Text). concat (take i lines) ++ t) (append_assoc before text _)
  where
    drop-nil : (n : ℕ) → drop {A = ℕ} n [] ≡ []
    drop-nil zero = refl
    drop-nil (suc n) = refl

-- One edit that starts in a line of the text and ends behind its last line, such as one that
-- replaces the whole document: the part from its start to the end of its first line is replaced,
-- and all lines behind stay.
pub apply_text_edits-past_end :
    (content : Text) (e : AnyTextEdit)
    → let lines = split_lines content in
      let start = (range e).start in
      start.line < length lines
      → length lines ≤ (range e).end.line
      → apply_text_edits content (e ∷ [])
        ≡ concat (take start.line lines)
          ++ (take start.character (get_or lines start.line [])
              ++ (get_edit_text e ++ concat (drop (suc start.line) lines)))
unfolding apply_text_edits insert_edit
apply_text_edits-past_end content e h k = apply_past_end (split_lines content) e h k

-- Two edits at one start, the first of them an insertion.
module _ (lines : List Text) (e f : AnyTextEdit) (re : InRange lines e) (rf : InRange lines f)
    (point : (range e).end ≡ (range e).start) (same : (range f).start ≡ (range e).start)
    (inside : (range f).end.line ≡ (range f).start.line) where
  after_insertion :
      InRange (apply_one lines e) f
      × (offset (apply_one lines e) (range f).start ≡ offset lines (range f).start)
      × (offset (apply_one lines e) (range f).end ≡ offset lines (range f).end)
  after_insertion =
      let i : ℕ = (range e).start.line in
      let l : Text = get_or lines i [] in
      let x : Text = joined lines e in
      let after : List Text = drop (suc (range e).end.line) lines in
      let row : (range f).end.line ≡ i = inside ∙ ap (λ (p : Position). p.line) same in
      let short : i ≤ length lines = ground (arith, re.starts) in
      let tail : Text = drop (range e).end.character (get_or lines (range e).end.line []) in
      let endline : (range e).end.line ≡ i = ap (λ (p : Position). p.line) point in
      let endchar : (range e).end.character ≡ (range e).start.character =
        ap (λ (p : Position). p.character) point in
      let tail_eq : tail ≡ drop (range e).start.character l = rw (endline, endchar) refl in
      let parts : length l
          ≡ length (take (range e).start.character l) + length (drop (range e).start.character l) =
        ap length (sym (take-append-drop (range e).start.character l))
        ∙ length-append (take (range e).start.character l) (drop (range e).start.character l) in
      let long : length l ≤ length x = omega (
        arith,
        length-append {0} (take (range e).start.character l) (get_edit_text e ++ tail),
        length-append {0} (get_edit_text e) tail,
        ap length tail_eq,
        parts,
      ) in
      let there : get_or (apply_one lines e) (range f).end.line [] ≡ x =
        rw (row, apply_one-eq lines e re) (get_or-take_here lines after i x [] short) in
      let was : (range f).end.character ≤ length l =
        subst (λ (k : ℕ). (range f).end.character ≤ length (get_or lines k [])) row rf.ends.1 in
      let s = offset-apply_one lines e re (range f).start rf.starts (ground (arith, same)) in
      let kept : take (range f).end.line (apply_one lines e) ≡ take (range f).end.line lines =
        rw (apply_one-eq lines e re)
          (take-take_append lines (x ∷ after) (range f).end.line i (le_of_eq row) short) in
      let count : (range f).end.line < length (apply_one lines e) = rw inside s.1.0 in
      let fits : (range f).end.character
          ≤ length (get_or (apply_one lines e) (range f).end.line []) =
        rw there (le_trans was long) in
      (
        record { starts = s.1; ends = (count, fits); ordered = rf.ordered },
        s.0,
        ap (λ (ls : List Text). length (concat ls) + (range f).end.character) kept,
      )

-- Two edits within the text at one start, an insertion given before another edit that ends in the
-- same line: the second is applied to the text with the insertion in it. So of two insertions the
-- one given later comes first in the result, and a replacement given after an insertion takes
-- away inserted text.
pub apply_text_edits-same_start :
    (content : Text) (e f : AnyTextEdit)
    → InRange (split_lines content) e
    → InRange (split_lines content) f
    → (range e).end ≡ (range e).start
    → (range f).start ≡ (range e).start
    → (range f).end.line ≡ (range f).start.line
    → let a = offset (split_lines content) (range e).start in
      let b = offset (split_lines content) (range f).end in
      apply_text_edits content (e ∷ f ∷ [])
      ≡ splice a b (get_edit_text f) (splice a a (get_edit_text e) content)
unfolding apply_text_edits insert_edit
apply_text_edits-same_start content e f re rf point same inside =
    let lines : List Text = split_lines content in
    let a : ℕ = offset lines (range e).start in
    let b : ℕ = offset lines (range f).end in
    let order : le_pos (range f).start (range e).start ≡ true = ground (arith, same) in
    let r = after_insertion lines e f re rf point same inside in
    let at : offset (apply_one lines e) (range f).start ≡ a = r.1 ∙ ap (offset lines) same in
    rw order (
      concat-apply_one (apply_one lines e) f r.0
      ∙ ap
          (λ (k : ℕ).
            splice k (offset (apply_one lines e) (range f).end) (get_edit_text f)
              (concat (apply_one lines e)))
          at
      ∙ ap (λ (k : ℕ). splice a k (get_edit_text f) (concat (apply_one lines e))) r.2
      ∙ ap (splice a b (get_edit_text f)) (
          concat-apply_one lines e re
          ∙ ap (λ (p : Position). splice a (offset lines p) (get_edit_text e) (concat lines)) point
          ∙ ap (splice a a (get_edit_text e)) (concat-split_lines content)))
