-- ===== src/Edit/Patch.antt =====
-- The simultaneous edit, described on the original text alone.
use lsp_client.Base.{
  ℕ, zero, suc, ◌+◌, ◌≤◌, ◌<◌, ◌≡◌, refl, sym, ap, ◌∙◌, inl, inr, true, List, [], ◌∷◌, ◌++◌, ◌==◌,
  length, get_or, take, drop, arith, length-append, drop-append, length-take, Bool-cases, All,
}
use mathlib.Core.List.{append_assoc, append-nil, Perm}
use lsp_client.Host.{Text}
use lsp_client.Lsp.{Position, le_pos}
use lsp_client.Edit.{
  AnyTextEdit, range, get_edit_text, concat, apply_text_edits, split_lines, sort_edits,
}
use lsp_client.Edit.Lines.{offset, InLine, concat-split_lines, concat_at}
use lsp_client.Edit.Splice.{InRange, splice}
use lsp_client.Edit.Order.{IsDescending, sort_edits_lem}
use native.Mathlib.Nat.{le_refl, le_trans}
use lsp_client.Edit.Sequence.{EndsBefore, Disjoint, splices, concat-apply_all}
use lsp_client.Edit.Apart.{AllApart, All-sort_edits, sort_edits-AllApart, Disjoint-of_apart}

-- The original text up to an offset with the edits of a list, which stand from the last to the
-- first: each edit's text stands between what is before its start and what is behind its end.
unfoldable pub patch : List Text → Text → List AnyTextEdit → ℕ → Text
patch lines content [] upto = take upto content
patch lines content (e ∷ es) upto =
    patch lines content es (offset lines (range e).start)
    ++ (get_edit_text e ++ drop (offset lines (range e).end) (take upto content))

length_before :
    (lines : List Text) (i j : ℕ)
    → i < j
    → length (concat (take i lines)) + length (get_or lines i []) ≤ length (concat (take j lines))
length_before [] zero j h = omega arith
length_before [] (suc i) j h = omega arith
length_before (l ∷ ls) i zero h = absurd (omega arith)
length_before (l ∷ ls) zero (suc j) h = omega (arith, length-append {0} l (concat (take j ls)))
length_before (l ∷ ls) (suc i) (suc j) h = omega (
  arith,
  length-append {0} l (concat (take i ls)),
  length-append {0} l (concat (take j ls)),
  length_before ls i j (omega arith),
)

offset_mono :
    (lines : List Text) (p q : Position)
    → InLine lines p
    → le_pos p q ≡ true
    → offset lines p ≤ offset lines q
offset_mono lines p q h le = elim (Bool-cases (p.line == q.line)) [
  | inl same ↦
      let e : p.line ≡ q.line = ground (arith, same) in
      let f : length (concat (take p.line lines)) ≡ length (concat (take q.line lines)) =
        ap (λ (i : ℕ). length (concat (take i lines))) e in
      ground (arith, f, same)
  | inr other ↦
      let lt : p.line < q.line = ground (arith, other) in
      omega (arith, length_before lines p.line q.line lt, h.1)
]

offset-le :
    (lines : List Text) (p : Position) → InLine lines p → offset lines p ≤ length (concat lines)
offset-le lines p h = rw (concat_at lines p.line h.0) (
    omega (
      arith,
      h.1,
      length-append {0} (concat (take p.line lines))
          (get_or lines p.line [] ++ concat (drop (suc p.line) lines)),
      length-append {0} (get_or lines p.line []) (concat (drop (suc p.line) lines)),
    ))

take-take_of_le :
    (a n : ℕ) (t rest : Text) → a ≤ n → n ≤ length t → take a (take n t ++ rest) ≡ take a t
take-take_of_le zero n t rest h k = refl
take-take_of_le (suc a) zero t rest h k = absurd (omega arith)
take-take_of_le (suc a) (suc n) [] rest h k = absurd (omega arith)
take-take_of_le (suc a) (suc n) (c ∷ t) rest h k =
    ap (◌∷◌ c) (take-take_of_le a n t rest (omega arith) (omega arith))

abbrev EndsWithin : List Text → ℕ → AnyTextEdit → Type 0
EndsWithin lines n e = offset lines (range e).end ≤ n

All-EndsWithin :
    (lines : List Text) (e : AnyTextEdit) (es : List AnyTextEdit)
    → All (InRange lines) es
    → All (EndsBefore e) es
    → All (EndsWithin lines (offset lines (range e).start)) es
All-EndsWithin lines e [] r b = tt
All-EndsWithin lines e (f ∷ fs) r b = (
  offset_mono lines (range f).end (range e).start r.0.ends b.0,
  All-EndsWithin lines e fs r.1 b.1,
)

splices-eq-patch :
    (lines : List Text) (es : List AnyTextEdit) (n : ℕ) (rest : Text)
    → n ≤ length (concat lines)
    → All (InRange lines) es
    → Disjoint es
    → All (EndsWithin lines n) es
    → splices lines es (take n (concat lines) ++ rest) ≡ patch lines (concat lines) es n ++ rest
unfolding splices patch splice
splices-eq-patch lines [] n rest h r d w = refl
splices-eq-patch lines (e ∷ es) n rest h r d w =
    let c : Text = concat lines in
    let a : ℕ = offset lines (range e).start in
    let b : ℕ = offset lines (range e).end in
    let t : Text = get_edit_text e in
    let ab : a ≤ b = offset_mono lines (range e).start (range e).end r.0.starts r.0.ordered in
    let tail : Text = t ++ (drop b (take n c) ++ rest) in
    let long : b ≤ length (take n c) = omega (arith, length-take {0} n c, w.0, h) in
    let cut : splice a b t (take n c ++ rest) ≡ take a c ++ tail =
      rw (take-take_of_le a n c rest (le_trans ab w.0) h, drop-append b (take n c) rest long)
        refl in
    ap (splices lines es) cut
    ∙ splices-eq-patch lines es a tail (le_trans ab (le_trans w.0 h)) r.1 d.1
        (All-EndsWithin lines e es r.1 d.0)
    ∙ ap (λ (u : Text). patch lines c es a ++ u) (sym (append_assoc t (drop b (take n c)) rest))
    ∙ sym (append_assoc (patch lines c es a) (t ++ drop b (take n c)) rest)

take_all : (t : Text) → take (length t) t ≡ t
take_all [] = refl
take_all (c ∷ t) = ap (◌∷◌ c) (take_all t)

All-EndsWithin-All :
    (lines : List Text) (es : List AnyTextEdit)
    → All (InRange lines) es
    → All (EndsWithin lines (length (concat lines))) es
All-EndsWithin-All lines [] r = tt
All-EndsWithin-All lines (e ∷ es) r =
    (offset-le lines (range e).end r.0.ends, All-EndsWithin-All lines es r.1)

-- Edits within the text that stand apart, given in any order, are applied as one simultaneous
-- edit: where the same edits stand from the last to the first, the result is the original text with
-- each replaced part exchanged for its edit's text and every part between them kept.
pub apply_text_edits-eq-patch :
    (content : Text) (edits : List AnyTextEdit)
    → All (InRange (split_lines content)) edits
    → AllApart edits
    → (es : List AnyTextEdit) × Perm es edits
      × IsDescending es
      × (apply_text_edits content edits ≡ patch (split_lines content) content es (length content))
unfolding apply_text_edits
apply_text_edits-eq-patch content edits r a =
    let lines : List Text = split_lines content in
    let es : List AnyTextEdit = sort_edits edits in
    let sorted = sort_edits_lem edits in
    let rs : All (InRange lines) es = All-sort_edits (InRange lines) edits r in
    let d : Disjoint es = Disjoint-of_apart lines es rs sorted.1 (sort_edits-AllApart edits a) in
    let c : Text = concat lines in
    let whole : take (length c) c ++ [] ≡ c = append-nil _ ∙ take_all c in
    (
      es,
      sorted.0,
      sorted.1,
      concat-apply_all lines es rs d
          ∙ ap (splices lines es) (sym whole)
          ∙ splices-eq-patch lines es (length c) [] (le_refl _) rs d
              (All-EndsWithin-All lines es rs)
          ∙ append-nil _
          ∙ ap (λ (t : Text). patch lines t es (length t)) (concat-split_lines content),
    )
