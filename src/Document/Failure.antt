-- ===== src/Document/Failure.antt =====
-- What `open` leaves behind when reading a file raises, and when two of them overlap.
use lsp_client.Base.{
  ◌+◌, All, some, refl, ap, subst, ◌⊎◌, inl, inr, Bool-cases, str_eq, eq_iff, ◌≡◌, String, true,
  false, List, [], ◌∷◌, arith, eq_refl, contains,
}
use lsp_client.Base.Int.{pos, ◌+ℤ◌, ◌-ℤ◌, +ℤ_parts, -ℤ_parts, eq_of_parts}
use lsp_client.Base.Dict.{Dict, member, lookup, insert, update, lookup-insert}
use lsp_client.Base.Exec.{Result, ok, err, ok_injective}
use lsp_client.Host.{Error, Text}
use lsp_client.Document.{
  DocumentState, DocumentStateManager, Reader, count, tally, subtract, missing, read_all,
  close_docs, open_begin, open_rest, open_docs, finish, open_finish, fresh_state, update_content,
  get_version,
}
use lsp_client.Document.Counts.{
  occ, count-tally, count-subtract, contains-missing, member-update, lookup-close_loop,
  contains-close_loop, member-read_all,
}
use lsp_client.Document.Holders.{Holds, open_docs-ok}

-- An `open` that raises has counted its URIs and stored no state.
pub open_docs-err :
    (read : Reader) (uris : List String) (m m' : DocumentStateManager) (e : Error)
    → open_docs read uris m ≡ (err e, m')
    → (m'.ref_counts ≡ tally uris m.ref_counts) × (m'.states ≡ m.states)
unfolding open_rest
open_docs-err read uris m m' e h = go (missing uris m.states) (unfold open_docs open_begin in h)
  where
    go :
        (l : List String)
        → open_rest read l (record m { ref_counts = tally uris m.ref_counts }) ≡ (err e, m')
        → (m'.ref_counts ≡ tally uris m.ref_counts) × (m'.states ≡ m.states)
    go [] f = cc
    go (v ∷ vs) f = rest (read_all read (v ∷ vs) []) f
      where
        rest :
            (r : Result Error (Dict DocumentState))
            → finish r (record m { ref_counts = tally uris m.ref_counts }) ≡ (err e, m')
            → (m'.ref_counts ≡ tally uris m.ref_counts) × (m'.states ≡ m.states)
        rest (ok d) k = cc
        rest (err x) k = (ground arith, ground arith)

-- The failed `open` of a document that nobody held is never made good: the next `open` and
-- `close` of the document leave it open, and report nothing closed.
pub close_after_failed_open :
    (read read' : Reader) (u : String) (held : List String) (m m₁ m₂ : DocumentStateManager)
    (e : Error) (new : Dict DocumentState)
    → Holds m held
    → occ u held ≡ 0
    → open_docs read (u ∷ []) m ≡ (err e, m₁)
    → open_docs read' (u ∷ []) m₁ ≡ (ok new, m₂)
    → (contains u (close_docs (u ∷ []) m₂).1 ≡ false)
      × (member u (close_docs (u ∷ []) m₂).0.states ≡ true)
close_after_failed_open read read' u held m m₁ m₂ e new h free failed opened =
    let f = open_docs-err read (u ∷ []) m m₁ e failed in
    let o = open_docs-ok read' (u ∷ []) m₁ m₂ new opened in
    let once : occ u (u ∷ []) ≡ 1 = unfold occ in simp eq_refl in
    let c = subtract (u ∷ []) m₂.ref_counts in
    let s = record m₂ { ref_counts = c } in
    let before : count u m₂.ref_counts ≡ pos 2 = ground (
      arith,
      f.0,
      o.0,
      once,
      h.counts u,
      free,
      count-tally u (u ∷ []) m.ref_counts,
      count-tally u (u ∷ []) m₁.ref_counts,
      +ℤ_parts (pos 0) (pos 1),
      +ℤ_parts (pos 1) (pos 1),
      eq_of_parts (pos 0 +ℤ pos 1) (pos 1),
      eq_of_parts (pos 1 +ℤ pos 1) (pos 2),
    ) in
    let left : count u c ≡ pos 1 = ground (
      arith,
      before,
      once,
      count-subtract u (u ∷ []) m₂.ref_counts,
      -ℤ_parts (pos 2) (pos 1),
      eq_of_parts (pos 2 -ℤ pos 1) (pos 1),
    ) in
    unfold close_docs in
    (
      ground (arith, contains-close_loop u (u ∷ []) s [], left),
      ground (
        arith,
        lookup-close_loop u (u ∷ []) s [],
        left,
        o.1,
        o.2 u,
        f.1,
        h.states u,
        free,
        member-update u m₁.states new,
        eq_refl u,
      ),
    )

-- A state as it was just read.
abbrev pub JustRead : Reader → String × DocumentState → Type 0
JustRead read e = (read e.0 ≡ ok (e.1.content, e.1.encoding)) × (e.1.version ≡ 0)

JustRead-insert :
    (read : Reader) (u : String) (r : Text × String) (d : Dict DocumentState)
    → read u ≡ ok r
    → All (JustRead read) d
    → All (JustRead read) (insert u (fresh_state r) d)
unfolding insert
JustRead-insert read u r [] k a = ((k, refl), tt)
JustRead-insert read u r ((v, x) ∷ d) k a = elim (Bool-cases (str_eq v u)) [
  | inl same ↦ rw same ((k, refl), a.1)
  | inr other ↦ rw other (a.0, JustRead-insert read u r d k a.1)
]

JustRead-read_all :
    (read : Reader) (us : List String) (acc d : Dict DocumentState)
    → All (JustRead read) acc
    → read_all read us acc ≡ ok d
    → All (JustRead read) d
unfolding read_all
JustRead-read_all read [] acc d a e = subst (All (JustRead read)) (ok_injective e) a
JustRead-read_all read (u ∷ us) acc d a e = go (read u) refl e (λ r k.
    JustRead-read_all read us (insert u (fresh_state r) acc) d (JustRead-insert read u r acc k a))
  where
    go :
        (r : Result Error (Text × String))
        → read u ≡ r
        → (elim r [ ok x ↦ read_all read us (insert u (fresh_state x) acc) | err x ↦ err x ]) ≡ ok d
        → ((x : Text × String)
            → read u ≡ ok x
            → read_all read us (insert u (fresh_state x) acc) ≡ ok d
            → All (JustRead read) d)
        → All (JustRead read) d
    go (ok x) k f ih = ih x k f
    go (err x) k f ih = absurd (cc)

-- The states of a manager have one for the document that was just read.
abbrev pub Found : Reader → String → Dict DocumentState → Type 0
Found read u d = (s : DocumentState) × (lookup u d ≡ some s) × JustRead read (u, s)

Found-update :
    (read : Reader) (u : String) (d e : Dict DocumentState)
    → All (JustRead read) e
    → (member u e ≡ true) ⊎ Found read u d
    → Found read u (update d e)
unfolding update lookup
Found-update read u d [] a (inl m) = absurd (ground (arith, m))
Found-update read u d [] a (inr f) = f
Found-update read u d ((v, x) ∷ e) a o =
    Found-update read u (insert v x d) e a.1 (go (Bool-cases (str_eq v u)) o)
  where
    go :
        (str_eq v u ≡ true) ⊎ (str_eq v u ≡ false)
        → (member u ((v, x) ∷ e) ≡ true) ⊎ Found read u d
        → (member u e ≡ true) ⊎ Found read u (insert v x d)
    go (inl same) p = inr (
      x,
      rw (lookup-insert v u x d, same) refl,
      subst (λ k. JustRead read (k, x)) ((eq_iff v u).0 same) a.0,
    )
    go (inr other) (inl m) = inl (ground (arith, m, other))
    go (inr other) (inr (s, f, j)) = inr (s, rw (lookup-insert v u x d, other) f, j)

open_rest-Found :
    (read : Reader) (us : List String) (u : String) (m m' : DocumentStateManager)
    (new : Dict DocumentState)
    → contains u us ≡ true
    → open_rest read us m ≡ (ok new, m')
    → (member u new ≡ true) × Found read u m'.states
unfolding open_rest
open_rest-Found read [] u m m' new c e = absurd (ground (arith, c))
open_rest-Found read (v ∷ vs) u m m' new c e = go (read_all read (v ∷ vs) []) refl e
  where
    go :
        (r : Result Error (Dict DocumentState))
        → read_all read (v ∷ vs) [] ≡ r
        → finish r m ≡ (ok new, m')
        → (member u new ≡ true) × Found read u m'.states
    go (err x) k f = absurd (cc)
    go (ok d) k f =
        let same : d ≡ new = ok_injective {E = Error} (ap (λ q. q.0) f) in
        let there : member u d ≡ true = ground (arith, c, member-read_all read u (v ∷ vs) [] d k) in
        (
          subst (λ x. member u x ≡ true) same there,
          subst (λ q. Found read u q.states) (ap (λ q. q.1) f)
              (unfold open_finish in
                Found-update read u m.states d (JustRead-read_all read (v ∷ vs) [] d tt k)
                  (inl there)),
        )

update_content-Found :
    (read : Reader) (u : String) (text : Text) (m : DocumentStateManager)
    → Found read u m.states
    → get_version u (update_content u text m).1 ≡ some 1
unfolding get_version update_content
update_content-Found read u text m (s, f, (r, v)) = ground (
  arith,
  f,
  v,
  eq_refl u,
  lookup-insert u u (record s { content = text; version = s.version + 1 }) m.states,
)

-- If a second `open` of a document begins before the first has read it, both report it as new; and
-- if the first ends, and the text is then replaced, before the second ends, the document is left as
-- the second has read it, at version 0: the new text and its version are lost.
pub overlapping_opens :
    (read read' : Reader) (us vs : List String) (m m₁ m₂ m₃ : DocumentStateManager) (u : String)
    (new new' : Dict DocumentState) (text : Text)
    → contains u us ≡ true
    → contains u vs ≡ true
    → member u m.states ≡ false
    → open_rest read (open_begin us m).0 (open_begin vs (open_begin us m).1).1 ≡ (ok new, m₁)
    → (update_content u text m₁).1 ≡ m₂
    → open_rest read' (open_begin vs (open_begin us m).1).0 m₂ ≡ (ok new', m₃)
    → (member u new ≡ true)
      × (member u new' ≡ true)
      × (get_version u m₂ ≡ some 1)
      × Found read' u m₃.states
overlapping_opens read read' us vs m m₁ m₂ m₃ u new new' text p q closed first edited second =
    let begun = open_begin us m in
    let f =
      open_rest-Found read begun.0 u (open_begin vs begun.1).1 m₁ new
        (unfold open_begin in ground (arith, contains-missing u us m.states, p, closed)) first in
    let s =
      open_rest-Found read' (open_begin vs begun.1).0 u m₂ m₃ new'
        (unfold open_begin in ground (arith, contains-missing u vs m.states, q, closed)) second in
    (
      f.0,
      s.0,
      subst (λ x. get_version u x ≡ some 1) edited (update_content-Found read u text m₁ f.1),
      s.1,
    )
