-- ===== src/Edit/Apart.antt =====
-- Edits that stand apart, and that sorting keeps them apart and in order.
use lsp_client.Base.{
  ◌≡◌, inl, inr, Bool, true, ◌&&◌, ◌||◌, not, List, [], ◌∷◌, arith, Bool-cases, All,
}
use lsp_client.Host.{Text}
use lsp_client.Lsp.{le_pos}
use lsp_client.Edit.{AnyTextEdit, range, insert_edit, sort_edits}
use lsp_client.Edit.Splice.{InRange}
use lsp_client.Edit.Order.{IsDescending, NotBefore}
use lsp_client.Edit.Sequence.{EndsBefore, Disjoint}

-- Two edits start at different positions, and one ends at or before the start of the other.
abbrev pub apart : AnyTextEdit → AnyTextEdit → Bool
apart e f =
    (le_pos (range f).end (range e).start || le_pos (range e).end (range f).start)
    && not (le_pos (range e).start (range f).start && le_pos (range f).start (range e).start)

abbrev pub Apart : AnyTextEdit → AnyTextEdit → Type 0
Apart e f = apart e f ≡ true

abbrev pub AllApart : List AnyTextEdit → Type 0
AllApart [] = Unit
AllApart (e ∷ es) = All (Apart e) es × AllApart es

pub All-insert_edit {κ} :
    (P : AnyTextEdit → Type κ) (e : AnyTextEdit) (es : List AnyTextEdit)
    → P e
    → All P es
    → All P (insert_edit e es)
unfolding insert_edit
All-insert_edit P e [] h a = (h, tt)
All-insert_edit P e (f ∷ fs) h a = elim (Bool-cases (le_pos (range f).start (range e).start)) [
  | inl le ↦ rw le (h, a)
  | inr gt ↦ rw gt (a.0, All-insert_edit P e fs h a.1)
]

pub All-sort_edits {κ} :
    (P : AnyTextEdit → Type κ) (es : List AnyTextEdit) → All P es → All P (sort_edits es)
unfolding sort_edits
All-sort_edits P [] a = tt
All-sort_edits P (e ∷ es) a = All-insert_edit P e (sort_edits es) a.0 (All-sort_edits P es a.1)

pub Apart-symm : (e f : AnyTextEdit) → Apart e f → Apart f e
Apart-symm e f h = ground arith

pub insert_edit-AllApart :
    (e : AnyTextEdit) (es : List AnyTextEdit)
    → All (Apart e) es
    → AllApart es
    → AllApart (insert_edit e es)
unfolding insert_edit
insert_edit-AllApart e [] h a = (tt, tt)
insert_edit-AllApart e (f ∷ fs) h a = elim (Bool-cases (le_pos (range f).start (range e).start)) [
  | inl le ↦ rw le (h, a)
  | inr gt ↦
      rw gt
        (All-insert_edit (Apart f) e fs (Apart-symm e f h.0) a.0, insert_edit-AllApart e fs h.1 a.1)
]

pub sort_edits-AllApart : (es : List AnyTextEdit) → AllApart es → AllApart (sort_edits es)
unfolding sort_edits
sort_edits-AllApart [] a = tt
sort_edits-AllApart (e ∷ es) a =
    insert_edit-AllApart e (sort_edits es) (All-sort_edits (Apart e) es a.0)
      (sort_edits-AllApart es a.1)

pub ends_before :
    (lines : List Text) (e f : AnyTextEdit)
    → InRange lines e
    → NotBefore e f
    → Apart e f
    → EndsBefore e f
ends_before lines e f r n a = ground (arith, r.ordered)

pub All-EndsBefore :
    (lines : List Text) (e : AnyTextEdit) (es : List AnyTextEdit)
    → InRange lines e
    → All (NotBefore e) es
    → All (Apart e) es
    → All (EndsBefore e) es
All-EndsBefore lines e [] r n a = tt
All-EndsBefore lines e (f ∷ fs) r n a =
    (ends_before lines e f r n.0 a.0, All-EndsBefore lines e fs r n.1 a.1)

-- Sorted, edits that stand apart are disjoint.
pub Disjoint-of_apart :
    (lines : List Text) (es : List AnyTextEdit)
    → All (InRange lines) es
    → IsDescending es
    → AllApart es
    → Disjoint es
Disjoint-of_apart lines [] r d a = tt
Disjoint-of_apart lines (e ∷ es) r d a =
    (All-EndsBefore lines e es r.0 d.0 a.0, Disjoint-of_apart lines es r.1 d.1 a.1)
