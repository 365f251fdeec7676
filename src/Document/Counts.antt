-- ===== src/Document/Counts.antt =====
-- What the counter and the loops of `open` and `close` do, one URI at a time.
use lsp_client.Base.{
  ℕ, suc, ◌+◌, ◌≡◌, refl, String, false, ◌&&◌, ◌||◌, not, none, List, [], ◌∷◌, ◌++◌, arith, eq_iff,
  str_eq, contains, if◌then◌else◌, ltb,
}
use lsp_client.Base.Int.{ℤ, pos, ◌+ℤ◌, ◌-ℤ◌, is_nonpos, int_laws, +ℤ_parts, -ℤ_parts, eq_of_parts}
use lsp_client.Base.Dict.{
  Dict, lookup, member, insert, remove, update, lookup-insert, lookup-remove,
}
use lsp_client.Base.Exec.{Result, ok, err}
use lsp_client.Document.{
  DocumentState, DocumentStateManager, Reader, count, tally, subtract, missing, read_all, close_one,
  close_loop, fresh_state,
}

-- How often a URI occurs in a list.
unfoldable pub occ : String → List String → ℕ
occ u [] = 0
occ u (v ∷ vs) = if str_eq v u then suc (occ u vs) else occ u vs

pub occ-append : (u : String) (xs ys : List String) → occ u (xs ++ ys) ≡ occ u xs + occ u ys
unfolding occ
occ-append u [] ys = omega arith
occ-append u (x ∷ xs) ys = ground (arith, occ-append u xs ys)

count-insert :
    (u v : String) (n : ℤ) (c : Dict ℤ)
    → count u (insert v n c) ≡ (if str_eq v u then n else count u c)
count-insert u v n c = rw lookup-insert (ground arith)

count-remove :
    (u v : String) (c : Dict ℤ) → count u (remove v c) ≡ (if str_eq v u then pos 0 else count u c)
count-remove u v c = rw lookup-remove (ground arith)

pub count-tally :
    (u : String) (us : List String) (c : Dict ℤ)
    → count u (tally us c) ≡ count u c +ℤ pos (occ u us)
unfolding tally occ
count-tally u [] c = omega int_laws
count-tally u (v ∷ vs) c = ground (
  arith,
  count-tally u vs (insert v (count v c +ℤ pos 1) c),
  count-insert u v (count v c +ℤ pos 1) c,
  eq_iff v u,
  +ℤ_parts (count u c) (pos 1),
  +ℤ_parts (count u c) (pos (suc (occ u vs))),
  +ℤ_parts (count u c +ℤ pos 1) (pos (occ u vs)),
  eq_of_parts (count u c +ℤ pos 1 +ℤ pos (occ u vs)) (count u c +ℤ pos (suc (occ u vs))),
)

pub count-subtract :
    (u : String) (us : List String) (c : Dict ℤ)
    → count u (subtract us c) ≡ count u c -ℤ pos (occ u us)
unfolding subtract occ
count-subtract u [] c = omega int_laws
count-subtract u (v ∷ vs) c = ground (
  arith,
  count-subtract u vs (insert v (count v c -ℤ pos 1) c),
  count-insert u v (count v c -ℤ pos 1) c,
  eq_iff v u,
  -ℤ_parts (count u c) (pos 1),
  -ℤ_parts (count u c) (pos (suc (occ u vs))),
  -ℤ_parts (count u c -ℤ pos 1) (pos (occ u vs)),
  eq_of_parts (count u c -ℤ pos 1 -ℤ pos (occ u vs)) (count u c -ℤ pos (suc (occ u vs))),
)

-- The list of new URIs holds what was asked for and is not open.
pub contains-missing :
    (u : String) (us : List String) (d : Dict DocumentState)
    → contains u (missing us d) ≡ (contains u us && not (member u d))
unfolding missing
contains-missing u [] d = refl
contains-missing u (v ∷ vs) d = ground (arith, contains-missing u vs d, eq_iff u v)

pub contains-iff_occ : (u : String) (us : List String) → contains u us ≡ ltb 0 (occ u us)
unfolding occ
contains-iff_occ u [] = refl
contains-iff_occ u (v ∷ vs) = ground (arith, contains-iff_occ u vs, eq_iff u v, eq_iff v u)

-- The group reads each URI of its list, and nothing else.
pub member-read_all :
    (read : Reader) (u : String) (us : List String) (acc d : Dict DocumentState)
    → read_all read us acc ≡ ok d
    → member u d ≡ (contains u us || member u acc)
unfolding read_all
member-read_all read u [] acc d h = ground arith
member-read_all read u (v ∷ vs) acc d h =
    go (read v) h (λ r. member-read_all read u vs (insert v (fresh_state r) acc) d)
  where
    go :
        (r : Result _ _)
        → (elim r [ ok x ↦ read_all read vs (insert v (fresh_state x) acc) | err e ↦ err e ]) ≡ ok d
        → ((x : _)
            → read_all read vs (insert v (fresh_state x) acc) ≡ ok d
            → member u d ≡ (contains u vs || member u (insert v (fresh_state x) acc)))
        → member u d ≡ (contains u (v ∷ vs) || member u acc)
    go (ok x) e ih =
        ground (arith, ih x e, lookup-insert v u (fresh_state x) acc, eq_iff v u, eq_iff u v)
    go (err x) e ih = cc

pub lookup-update_miss :
    (u : String) (d e : Dict DocumentState)
    → member u e ≡ false
    → lookup u (update d e) ≡ lookup u d
unfolding update lookup
lookup-update_miss u d [] h = refl
lookup-update_miss u d ((v, s) ∷ e) h =
    ground (arith, lookup-update_miss u (insert v s d) e, lookup-insert v u s d)

pub member-update :
    (u : String) (d e : Dict DocumentState) → member u (update d e) ≡ (member u d || member u e)
unfolding update lookup
member-update u d [] = ground arith
member-update u d ((v, s) ∷ e) =
    ground (arith, member-update u (insert v s d) e, lookup-insert v u s d)

contains-append :
    (u : String) (xs ys : List String) → contains u (xs ++ ys) ≡ (contains u xs || contains u ys)
contains-append u [] ys = refl
contains-append u (x ∷ xs) ys = ground (arith, contains-append u xs ys)

module _ (u v : String) (m : DocumentStateManager) (closed : List String) where
  pub lookup-close_one :
      lookup u (close_one v m closed).0.states
      ≡ (if str_eq v u && is_nonpos (count v m.ref_counts) then none else lookup u m.states)
  unfolding close_one
  lookup-close_one = ground (arith, eq_iff v u, lookup-remove v u m.states)

  pub count-close_one :
      count u (close_one v m closed).0.ref_counts
      ≡ (if str_eq v u && is_nonpos (count v m.ref_counts) then pos 0 else count u m.ref_counts)
  unfolding close_one
  count-close_one = ground (arith, eq_iff v u, lookup-remove v u m.ref_counts)

  contains-close_one :
      contains u (close_one v m closed).1
      ≡ (contains u closed || (str_eq v u && is_nonpos (count v m.ref_counts) && member u m.states))
  unfolding close_one
  contains-close_one = ground (arith, eq_iff v u, eq_iff u v, contains-append u closed (v ∷ []))

-- After the loop a URI of the list whose count is not positive is gone, and reported once if it
-- had a state; every other URI is as it was.
module _ (u : String) where
  pub lookup-close_loop :
      (us : List String) (m : DocumentStateManager) (closed : List String)
      → lookup u (close_loop us m closed).0.states
        ≡ (if contains u us && is_nonpos (count u m.ref_counts) then none else lookup u m.states)
  unfolding close_loop
  lookup-close_loop [] m closed = refl
  lookup-close_loop (v ∷ vs) m closed =
      let next = close_one v m closed in
      ground (
        arith,
        lookup-close_loop vs next.0 next.1,
        lookup-close_one u v m closed,
        count-close_one u v m closed,
        eq_iff v u,
        eq_iff u v,
      )

  pub count-close_loop :
      (us : List String) (m : DocumentStateManager) (closed : List String)
      → count u (close_loop us m closed).0.ref_counts ≡ (
          if contains u us && is_nonpos (count u m.ref_counts) then pos 0 else count u m.ref_counts)
  unfolding close_loop
  count-close_loop [] m closed = refl
  count-close_loop (v ∷ vs) m closed =
      let next = close_one v m closed in
      ground (
        arith,
        count-close_loop vs next.0 next.1,
        count-close_one u v m closed,
        eq_iff v u,
        eq_iff u v,
      )

  pub contains-close_loop :
      (us : List String) (m : DocumentStateManager) (closed : List String)
      → contains u (close_loop us m closed).1 ≡ (
          contains u closed
          || (contains u us && is_nonpos (count u m.ref_counts) && member u m.states))
  unfolding close_loop
  contains-close_loop [] m closed = ground arith
  contains-close_loop (v ∷ vs) m closed =
      let next = close_one v m closed in
      ground (
        arith,
        contains-close_loop vs next.0 next.1,
        contains-close_one u v m closed,
        lookup-close_one u v m closed,
        count-close_one u v m closed,
        eq_iff v u,
        eq_iff u v,
      )
