-- ===== src/Edit/Splice.antt =====
-- One edit in the list of lines is one replacement in the joined text.
use Prim.Native.Nat.{max}
use lsp_client.Base.{
  ℕ, suc, ◌<◌, ◌≡◌, sym, ap, ◌∙◌, inl, inr, true, false, List, [], ◌∷◌, ◌++◌, ltb, leb, ◌==◌,
  ==_iff, length, get_or, set, take, drop, arith, Bool-cases,
}
use mathlib.Core.List.{append_assoc}
use lsp_client.Host.{Text}
use lsp_client.Lsp.{le_pos}
use lsp_client.Edit.{AnyTextEdit, range, get_edit_text, concat, apply_one}
use lsp_client.Edit.Lines.{
  concat-append, offset, InLine, take-offset, drop-offset, set-eq, take-set, drop-set, length-set,
}

-- `content[:a] + text + content[b:]`
unfoldable pub splice : ℕ → ℕ → Text → Text → Text
splice a b text content = take a content ++ (text ++ drop b content)

-- Both ends of the edit stand in lines that are there, the start not behind the end.
pub record InRange (lines : List Text) (e : AnyTextEdit) : Type 0 where
  pub starts : InLine lines (range e).start
  pub ends : InLine lines (range e).end
  pub ordered : le_pos (range e).start (range e).end ≡ true

-- The line that replaces those from the start to the end of an edit.
abbrev pub joined : List Text → AnyTextEdit → Text
joined lines e =
    take (range e).start.character (get_or lines (range e).start.line [])
    ++ (get_edit_text e ++ drop (range e).end.character (get_or lines (range e).end.line []))

del_set :
    {A : Type 0} (xs : List A) (i j : ℕ) (x : A)
    → i < length xs
    → i < j
    → take (suc i) (set xs i x) ++ drop (suc j) (set xs i x) ≡ take i xs ++ (x ∷ drop (suc j) xs)
del_set xs i j x h k =
    rw (take-set xs i x h, drop-set xs i (suc j) x (omega arith))
      (append_assoc (take i xs) (x ∷ []) (drop (suc j) xs))

-- Whether the edit stays in its line or not, the lines from its start to its end become one.
pub apply_one-eq :
    (lines : List Text) (e : AnyTextEdit)
    → InRange lines e
    → apply_one lines e
      ≡ take (range e).start.line lines ++ (joined lines e ∷ drop (suc (range e).end.line) lines)
unfolding apply_one
apply_one-eq lines e r =
    let i : ℕ = (range e).start.line in
    let j : ℕ = (range e).end.line in
    let x : Text = joined lines e in
    let inside : leb (length lines) i ≡ false = ground (arith, r.starts) in
    let whole : leb (length lines) j ≡ false = ground (arith, r.ends) in
    elim (Bool-cases (i == j)) [
      | inl same ↦
          let e : i ≡ j = (==_iff i j).0 same in
          ground (arith, inside, same, e, set-eq lines i x r.starts.0)
      | inr other ↦
          let before : i < j = ground (arith, r.ordered, other) in
          let room : ltb j (length (set lines i x)) ≡ true =
            ground (arith, length-set lines i x, r.ends) in
          let cut : max (suc i) (suc j) ≡ suc j = omega arith in
          ground (arith, inside, whole, other, room, cut, del_set lines i j x r.starts.0 before)
    ]

-- An edit within the text replaces the text between its two offsets, and nothing else.
pub concat-apply_one :
    (lines : List Text) (e : AnyTextEdit)
    → InRange lines e
    → concat (apply_one lines e)
      ≡ splice
          (offset lines (range e).start)
          (offset lines (range e).end)
          (get_edit_text e)
          (concat lines)
unfolding splice
concat-apply_one lines e r =
    let s = (range e).start in
    let t = (range e).end in
    let text = get_edit_text e in
    ap concat (apply_one-eq lines e r)
    ∙ concat-append (take s.line lines) _
    ∙ ap (λ (u : Text). concat (take s.line lines) ++ u)
        (append_assoc (take s.character (get_or lines s.line [])) _ _
          ∙ ap (λ (u : Text). take s.character (get_or lines s.line []) ++ u)
              (append_assoc text _ _))
    ∙ sym (append_assoc (concat (take s.line lines)) _ _)
    ∙ sym (
        ap (λ (u : Text). u ++ (text ++ drop (offset lines t) (concat lines)))
          (take-offset lines s r.starts)
        ∙ ap
            (λ (u : Text).
              (concat (take s.line lines) ++ take s.character (get_or lines s.line []))
              ++ (text ++ u))
            (drop-offset lines t r.ends))
