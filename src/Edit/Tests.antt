-- ===== src/Edit/Tests.antt =====
-- Edits of a text of two lines, "ab" and "cd".
use lsp_client.Base.{List, ℕ, ◌≡◌, refl, [], ◌∷◌, arith}
use lsp_client.Host.{Text}
use lsp_client.Lsp.{Position, Range}
use lsp_client.Edit.{AnyTextEdit, text_edit, get_edit_text, split_lines, apply_text_edits}
use lsp_client.Edit.Splice.{splice, InRange}
use mathlib.Core.List.{Perm}
use lsp_client.Edit.Order.{IsDescending}
use lsp_client.Edit.Patch.{patch, apply_text_edits-eq-patch}
use lsp_client.Edit.Gaps.{apply_text_edits-past_end, apply_text_edits-same_start}

abbrev two_lines : Text
two_lines = b'a' ∷ b'b' ∷ 10 ∷ b'c' ∷ b'd' ∷ []

abbrev at : ℕ → ℕ → Position
at i j = record { line = i; character = j }

abbrev between : Position → Position → Range
between p q = record { start = p; end = q }

-- "X" before "b", and "Y" for what is between "b" and "d"
abbrev insert_x : AnyTextEdit
insert_x = text_edit (between (at 0 1) (at 0 1)) (b'X' ∷ [])

abbrev put_y : AnyTextEdit
put_y = text_edit (between (at 0 2) (at 1 1)) (b'Y' ∷ [])

apply_both :
    apply_text_edits two_lines (insert_x ∷ put_y ∷ []) ≡ b'a' ∷ b'X' ∷ b'b' ∷ b'Y' ∷ b'd' ∷ []
unfolding apply_text_edits
apply_both = refl

insert_x-InRange : InRange (split_lines two_lines) insert_x
unfolding split_lines
insert_x-InRange = record {
  starts = (omega arith, omega arith);
  ends = (omega arith, omega arith);
  ordered = refl;
}

put_y-InRange : InRange (split_lines two_lines) put_y
unfolding split_lines
put_y-InRange = record {
  starts = (omega arith, omega arith);
  ends = (omega arith, omega arith);
  ordered = refl;
}

apply_text_edits-eq-patch_example :
    (es : List AnyTextEdit) × Perm es (insert_x ∷ put_y ∷ [])
    × IsDescending es
    × (apply_text_edits two_lines (insert_x ∷ put_y ∷ [])
        ≡ patch (split_lines two_lines) two_lines es 5)
apply_text_edits-eq-patch_example =
    apply_text_edits-eq-patch two_lines (insert_x ∷ put_y ∷ [])
      (insert_x-InRange, (put_y-InRange, tt)) ((refl, tt), (tt, tt))

-- the edit that replaces a whole document, its end at the largest line number
abbrev whole : AnyTextEdit
whole = text_edit (between (at 0 0) (at 2147483647 0)) (b'Z' ∷ [])

apply_text_edits-past_end_example :
    apply_text_edits two_lines (whole ∷ []) ≡ b'Z' ∷ b'c' ∷ b'd' ∷ []
unfolding split_lines get_edit_text
apply_text_edits-past_end_example =
    apply_text_edits-past_end two_lines whole (omega arith) (omega arith)

-- "Y" inserted where "X" was
abbrev insert_y : AnyTextEdit
insert_y = text_edit (between (at 0 1) (at 0 1)) (b'Y' ∷ [])

insert_y-InRange : InRange (split_lines two_lines) insert_y
unfolding split_lines
insert_y-InRange = record {
  starts = (omega arith, omega arith);
  ends = (omega arith, omega arith);
  ordered = refl;
}

apply_text_edits-same_start_example :
    apply_text_edits two_lines (insert_x ∷ insert_y ∷ [])
    ≡ b'a' ∷ b'Y' ∷ b'X' ∷ b'b' ∷ 10 ∷ b'c' ∷ b'd' ∷ []
unfolding split_lines splice get_edit_text
apply_text_edits-same_start_example =
    apply_text_edits-same_start two_lines insert_x insert_y insert_x-InRange insert_y-InRange refl
      refl refl
