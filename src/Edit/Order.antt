-- ===== src/Edit/Order.antt =====
-- The order in which the edits are applied.
use lsp_client.Base.{
  ◌≡◌, refl, inl, inr, true, false, List, [], ◌∷◌, if◌then◌else◌, arith, Bool-cases, All,
}
use mathlib.Core.List.{Perm}
use mathlib.Core.List.Perm
use lsp_client.Lsp.{Position, le_pos}
use lsp_client.Edit.{AnyTextEdit, range, insert_edit, sort_edits}

-- `e` starts at or after `f`.
abbrev pub NotBefore : AnyTextEdit → AnyTextEdit → Type 0
NotBefore e f = le_pos (range f).start (range e).start ≡ true

-- Starts fall, or stay, along the list.
abbrev pub IsDescending : List AnyTextEdit → Type 0
IsDescending [] = Unit
IsDescending (e ∷ es) = All (NotBefore e) es × IsDescending es

-- The edits of a list that start at one position, in their order.
unfoldable pub starting_at : Position → List AnyTextEdit → List AnyTextEdit
starting_at p [] = []
starting_at p (e ∷ es) =
    if le_pos (range e).start p
    then (if le_pos p (range e).start then e ∷ starting_at p es else starting_at p es)
    else starting_at p es

le_pos_total : (p q : Position) → le_pos p q ≡ false → le_pos q p ≡ true
le_pos_total p q h = ground arith

le_pos_trans : (p q r : Position) → le_pos p q ≡ true → le_pos q r ≡ true → le_pos p r ≡ true
le_pos_trans p q r h g = ground arith

All-NotBefore :
    (e f : AnyTextEdit) (es : List AnyTextEdit)
    → NotBefore e f
    → All (NotBefore f) es
    → All (NotBefore e) es
All-NotBefore e f [] h a = tt
All-NotBefore e f (g ∷ es) h a =
    (le_pos_trans (range g).start (range f).start (range e).start a.0 h, All-NotBefore e f es h a.1)

All-insert :
    (g e : AnyTextEdit) (es : List AnyTextEdit)
    → NotBefore g e
    → All (NotBefore g) es
    → All (NotBefore g) (insert_edit e es)
unfolding insert_edit
All-insert g e [] h a = (h, tt)
All-insert g e (f ∷ fs) h a = elim (Bool-cases (le_pos (range f).start (range e).start)) [
  | inl le ↦ rw le (h, a)
  | inr gt ↦ rw gt (a.0, All-insert g e fs h a.1)
]

insert-IsDescending :
    (e : AnyTextEdit) (es : List AnyTextEdit) → IsDescending es → IsDescending (insert_edit e es)
unfolding insert_edit
insert-IsDescending e [] d = (tt, tt)
insert-IsDescending e (f ∷ fs) d = elim (Bool-cases (le_pos (range f).start (range e).start)) [
  | inl le ↦ rw le ((le, All-NotBefore e f fs le d.0), d)
  | inr gt ↦ rw gt (
    All-insert f e fs (le_pos_total (range f).start (range e).start gt) d.0,
    insert-IsDescending e fs d.1,
  )
]

insert-perm : (e : AnyTextEdit) (es : List AnyTextEdit) → Perm (insert_edit e es) (e ∷ es)
unfolding insert_edit
insert-perm e [] = Perm.refl (e ∷ [])
insert-perm e (f ∷ fs) = elim (Bool-cases (le_pos (range f).start (range e).start)) [
  | inl le ↦ rw le (Perm.refl (e ∷ f ∷ fs))
  | inr gt ↦ rw gt (Perm.trans (Perm.cons f (insert-perm e fs)) (Perm.swap e f fs))
]

starting_at-insert :
    (p : Position) (e : AnyTextEdit) (es : List AnyTextEdit)
    → starting_at p (insert_edit e es) ≡ starting_at p (e ∷ es)
unfolding insert_edit starting_at
starting_at-insert p e [] = refl
starting_at-insert p e (f ∷ fs) = ground (
  arith,
  starting_at-insert p e fs,
  le_pos_trans (range f).start p (range e).start,
  le_pos_total (range f).start (range e).start,
)

sort_edits-IsDescending : (es : List AnyTextEdit) → IsDescending (sort_edits es)
unfolding sort_edits
sort_edits-IsDescending [] = tt
sort_edits-IsDescending (e ∷ es) =
    insert-IsDescending e (sort_edits es) (sort_edits-IsDescending es)

sort_edits-perm : (es : List AnyTextEdit) → Perm (sort_edits es) es
unfolding sort_edits
sort_edits-perm [] = Perm.refl []
sort_edits-perm (e ∷ es) =
    Perm.trans (insert-perm e (sort_edits es)) (Perm.cons e (sort_edits-perm es))

starting_at-sort_edits :
    (p : Position) (es : List AnyTextEdit) → starting_at p (sort_edits es) ≡ starting_at p es
unfolding sort_edits starting_at
starting_at-sort_edits p [] = refl
starting_at-sort_edits p (e ∷ es) =
    ground (arith, starting_at-insert p e (sort_edits es), starting_at-sort_edits p es)

-- The sorted edits are those given, each as often; no edit starts before a later one of the list;
-- and the edits that start at one position stand in the order in which they were given.
pub sort_edits_lem :
    (es : List AnyTextEdit)
    → Perm (sort_edits es) es
      × IsDescending (sort_edits es)
      × ((p : Position) → starting_at p (sort_edits es) ≡ starting_at p es)
sort_edits_lem es =
    (sort_edits-perm es, sort_edits-IsDescending es, λ p. starting_at-sort_edits p es)
