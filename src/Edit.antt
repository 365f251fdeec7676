-- ===== src/Edit.antt =====
-- utils/workspace_edit.py: `apply_text_edits` and what it calls.
pub mod Lines
pub mod Order
pub mod Splice
pub mod Sequence
pub mod Apart
pub mod Patch
pub mod Gaps
pub mod Tests
use Prim.Native.Nat.{max}
use lsp_client.Base.{
  ℕ, zero, suc, ◌+◌, ◌-◌, String, Bool, true, false, ◌&&◌, ◌||◌, List, [], ◌∷◌, ◌++◌, ltb, leb,
  ◌==◌, if◌then◌else◌, length, get_or, set, take, drop,
}
use lsp_client.Host.{Text}
use lsp_client.Lsp.{Position, Range, le_pos}

pub data AnyTextEdit : Type 0 where
  text_edit : Range → Text → AnyTextEdit
  annotated_text_edit : Range → Text → String → AnyTextEdit
  snippet_text_edit : Range → Text → AnyTextEdit

-- `edit.range`
abbrev pub range : AnyTextEdit → Range
range (text_edit r t) = r
range (annotated_text_edit r t a) = r
range (snippet_text_edit r v) = r

-- the value of a snippet, else `new_text`
unfoldable pub get_edit_text : AnyTextEdit → Text
get_edit_text (snippet_text_edit r v) = v
get_edit_text (text_edit r t) = t
get_edit_text (annotated_text_edit r t a) = t

-- The line boundaries of `str.splitlines`, but for a carriage return before a line feed.
unfoldable pub is_break : ℕ → Bool
is_break c =
    (leb 10 c && leb c 13) || (leb 0x1c c && leb c 0x1e) || c == 0x85 || c == 0x2028 || c == 0x2029

abbrev pub prepend : ℕ → List Text → List Text
prepend c [] = (c ∷ []) ∷ []
prepend c (l ∷ ls) = (c ∷ l) ∷ ls

-- `content.splitlines(keepends=True)`
unfoldable pub split_lines : Text → List Text
unfolding is_break
split_lines [] = []
split_lines (c ∷ []) = (c ∷ []) ∷ []
split_lines (c ∷ d ∷ cs) =
    let rest = split_lines (d ∷ cs) in
    let after = split_lines cs in
    if c == 13 && d == 10
    then (c ∷ d ∷ []) ∷ after
    else if is_break c
    then (c ∷ []) ∷ rest
    else prepend c rest

-- `"".join(lines)`
abbrev pub concat : List Text → Text
concat [] = []
concat (l ∷ ls) = l ++ concat ls

-- `sorted(edits, key=start, reverse=True)` is stable: equal keys keep their order.
unfoldable pub insert_edit : AnyTextEdit → List AnyTextEdit → List AnyTextEdit
insert_edit e [] = e ∷ []
insert_edit e (f ∷ fs) =
    if le_pos (range f).start (range e).start then e ∷ f ∷ fs else f ∷ insert_edit e fs

unfoldable pub sort_edits : List AnyTextEdit → List AnyTextEdit
unfolding insert_edit
sort_edits [] = []
sort_edits (e ∷ es) = insert_edit e (sort_edits es)

-- `while len(lines) <= start_line: lines.append("\n")`, with the number of rounds
unfoldable pub pad : ℕ → List Text → List Text
pad zero lines = lines
pad (suc k) lines = pad k (lines ++ (10 ∷ []) ∷ [])

-- `del lines[a:b]`
abbrev pub del_slice : ℕ → ℕ → List Text → List Text
del_slice a b lines = take a lines ++ drop (max a b) lines

-- One round of the loop over the sorted edits.
unfoldable pub apply_one : List Text → AnyTextEdit → List Text
apply_one lines edit =
    let new_text = get_edit_text edit in
    let start = (range edit).start in
    let end = (range edit).end in
    let start_line_content = get_or lines start.line [] in
    let end_line_content = if leb (length lines) end.line then [] else get_or lines end.line [] in
    let before = take start.character start_line_content in
    let multi =
      set lines start.line (before ++ (new_text ++ drop end.character end_line_content)) in
    if leb (length lines) start.line
    then set (pad (suc start.line - length lines) lines) start.line new_text
    else if start.line == end.line
    then set lines start.line (before ++ (new_text ++ drop end.character start_line_content))
    else if ltb end.line (length multi)
    then del_slice (suc start.line) (suc end.line) multi
    else multi

unfoldable pub apply_all : List Text → List AnyTextEdit → List Text
apply_all lines [] = lines
apply_all lines (e ∷ es) = apply_all (apply_one lines e) es

unfoldable pub apply_text_edits : Text → List AnyTextEdit → Text
unfolding apply_one apply_all split_lines sort_edits get_edit_text pad
apply_text_edits content edits = concat (apply_all (split_lines content) (sort_edits edits))
