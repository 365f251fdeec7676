-- ===== src/Edit/Sequence.antt =====
-- All edits of a list, applied from the last position to the first, are one simultaneous edit.
use lsp_client.Base.{
  suc, ◌+◌, ◌≤◌, ◌<◌, ◌≡◌, refl, ap, ◌∙◌, inl, inr, true, List, [], ◌∷◌, ◌++◌, ◌==◌, length, get_or,
  take, drop, arith, length-append, length-take, Bool-cases, All,
}
use lsp_client.Host.{Text}
use lsp_client.Lsp.{Position, le_pos}
use lsp_client.Edit.{AnyTextEdit, range, get_edit_text, concat, apply_one, apply_all}
use lsp_client.Edit.Lines.{offset, InLine, take-take_append, get_or-take_append, get_or-take_here}
use lsp_client.Edit.Splice.{InRange, splice, joined, apply_one-eq, concat-apply_one}

-- The second edit of the two ends at or before the start of the first.
abbrev pub EndsBefore : AnyTextEdit → AnyTextEdit → Type 0
EndsBefore e f = le_pos (range f).end (range e).start ≡ true

-- Along the list each edit ends at or before the start of those that stand earlier.
abbrev pub Disjoint : List AnyTextEdit → Type 0
Disjoint [] = Unit
Disjoint (e ∷ es) = All (EndsBefore e) es × Disjoint es

le_pos_trans : (p q r : Position) → le_pos p q ≡ true → le_pos q r ≡ true → le_pos p r ≡ true
le_pos_trans p q r h g = ground arith

module _ (lines : List Text) (e : AnyTextEdit) (r : InRange lines e) where
  -- An edit moves no position at or before its start.
  pub offset-apply_one :
      (p : Position)
      → InLine lines p
      → le_pos p (range e).start ≡ true
      → (offset (apply_one lines e) p ≡ offset lines p) × InLine (apply_one lines e) p
  offset-apply_one p h le =
      let s = (range e).start in
      let x : Text = joined lines e in
      let after : List Text = drop (suc (range e).end.line) lines in
      let kept : take p.line (take s.line lines ++ (x ∷ after)) ≡ take p.line lines =
        take-take_append lines (x ∷ after) p.line s.line (ground (arith, le))
          (ground (arith, r.starts)) in
      let long : s.character ≤ length x = omega (
        arith,
        r.starts,
        length-append {0} (take s.character (get_or lines s.line []))
            (get_edit_text e ++ drop (range e).end.character (get_or lines (range e).end.line [])),
        length-take {0} s.character (get_or lines s.line []),
      ) in
      rw (apply_one-eq lines e r) (
        ap (λ (ls : List Text). length (concat ls) + p.character) kept,
        (
          ground (
            arith,
            r.starts,
            le,
            length-append (take s.line lines) (x ∷ after),
            length-take s.line lines,
          ),
          elim (Bool-cases (p.line == s.line)) [
            | inl same ↦
                let q : p.line ≡ s.line = ground (arith, same) in
                let here : get_or (take s.line lines ++ (x ∷ after)) p.line [] ≡ x =
                  rw q (get_or-take_here lines after s.line x [] (ground (arith, r.starts))) in
                rw here (ground (arith, le, same, long))
            | inr other ↦
                let q : p.line < s.line = ground (arith, le, other) in
                rw
                  (get_or-take_append lines (x ∷ after) p.line s.line [] q
                    (ground (arith, r.starts)))
                  h.1
          ],
        ),
      )

  -- So an edit that ends there is still in range, at the same offsets.
  InRange-apply_one :
      (f : AnyTextEdit)
      → InRange lines f
      → EndsBefore e f
      → InRange (apply_one lines e) f
        × (offset (apply_one lines e) (range f).start ≡ offset lines (range f).start)
        × (offset (apply_one lines e) (range f).end ≡ offset lines (range f).end)
  InRange-apply_one f rf before =
      let a =
        offset-apply_one (range f).start rf.starts
          (le_pos_trans (range f).start (range f).end (range e).start rf.ordered before) in
      let b = offset-apply_one (range f).end rf.ends before in
      (record { starts = a.1; ends = b.1; ordered = rf.ordered }, a.0, b.0)

  All-InRange-apply_one :
      (es : List AnyTextEdit)
      → All (InRange lines) es
      → All (EndsBefore e) es
      → All (InRange (apply_one lines e)) es
  All-InRange-apply_one [] a b = tt
  All-InRange-apply_one (f ∷ fs) a b =
      ((InRange-apply_one f a.0 b.0).0, All-InRange-apply_one fs a.1 b.1)

-- Replacements at the offsets of the original lines, one after the other.
unfoldable pub splices : List Text → List AnyTextEdit → Text → Text
splices lines [] t = t
splices lines (e ∷ es) t =
    splices lines es
      (splice (offset lines (range e).start) (offset lines (range e).end) (get_edit_text e) t)

splices-apply_one :
    (lines : List Text) (e : AnyTextEdit) (es : List AnyTextEdit) (t : Text)
    → InRange lines e
    → All (InRange lines) es
    → All (EndsBefore e) es
    → splices (apply_one lines e) es t ≡ splices lines es t
unfolding splices
splices-apply_one lines e [] t r a b = refl
splices-apply_one lines e (f ∷ fs) t r a b =
    let o = InRange-apply_one lines e r f a.0 b.0 in
    rw (o.1, o.2) (splices-apply_one lines e fs _ r a.1 b.1)

pub concat-apply_all :
    (lines : List Text) (es : List AnyTextEdit)
    → All (InRange lines) es
    → Disjoint es
    → concat (apply_all lines es) ≡ splices lines es (concat lines)
unfolding apply_all splices
concat-apply_all lines [] a d = refl
concat-apply_all lines (e ∷ es) a d =
    concat-apply_all (apply_one lines e) es (All-InRange-apply_one lines e a.0 es a.1 d.0) d.1
    ∙ splices-apply_one lines e es (concat (apply_one lines e)) a.0 a.1 d.0
    ∙ ap (splices lines es) (concat-apply_one lines e a.0)
