-- ===== src/Document/Holders.antt =====
-- The reference counts as a multiset of holders: each URI of each `open` that has not been closed.
use lsp_client.Base.{
  ℕ, ◌+◌, ◌≡◌, refl, ◌∙◌, String, ◌&&◌, not, List, [], ◌∷◌, ◌++◌, arith, contains, ltb,
}
use lsp_client.Base.Int.{pos, ◌+ℤ◌, ◌-ℤ◌, int_laws, -ℤ_parts, eq_of_parts}
use lsp_client.Base.Dict.{Dict, lookup, member, update}
use lsp_client.Base.Exec.{Result, ok, err}
use lsp_client.Host.{Error}
use lsp_client.Document.{
  DocumentState, DocumentStateManager, Reader, count, tally, subtract, missing, read_all,
  close_docs, open_begin, open_finish, open_rest, open_docs, finish, new_manager,
}
use lsp_client.Document.Counts.{
  occ, count-tally, count-subtract, contains-missing, contains-iff_occ, member-read_all,
  member-update, lookup-close_loop, count-close_loop, contains-close_loop, occ-append,
}

-- The manager stands for a list of holders: each count is the number of holders, and the
-- documents with a state are those with a holder.
pub record Holds (m : DocumentStateManager) (held : List String) : Type 0 where
  pub counts : (u : String) → count u m.ref_counts ≡ pos (occ u held)
  pub states : (u : String) → member u m.states ≡ ltb 0 (occ u held)

-- Nothing is held at the start.
pub new_manager-Holds : Holds new_manager []
unfolding occ lookup
new_manager-Holds = record { counts = λ u. refl; states = λ u. refl }

pos_add : (a b : ℕ) → pos a +ℤ pos b ≡ pos (b + a)
pos_add a b = omega int_laws

-- What an `open` that returned has done to the manager.
open_rest-ok :
    (read : Reader) (new_uris : List String) (m m' : DocumentStateManager)
    (new : Dict DocumentState)
    → open_rest read new_uris m ≡ (ok new, m')
    → (m'.ref_counts ≡ m.ref_counts)
      × (m'.states ≡ update m.states new)
      × ((u : String) → member u new ≡ contains u new_uris)
unfolding open_rest open_finish update lookup
open_rest-ok read [] m m' new h = (ground arith, ground arith, λ u. ground arith)
open_rest-ok read (v ∷ vs) m m' new h = go (read_all read (v ∷ vs) []) refl h
  where
    go :
        (r : Result Error (Dict DocumentState))
        → read_all read (v ∷ vs) [] ≡ r
        → finish r m ≡ (ok new, m')
        → (m'.ref_counts ≡ m.ref_counts)
          × (m'.states ≡ update m.states new)
          × ((u : String) → member u new ≡ contains u (v ∷ vs))
    go (ok d) e f =
        (ground arith, ground arith, λ u. ground (arith, member-read_all read u (v ∷ vs) [] new))
    go (err x) e f = cc

pub open_docs-ok :
    (read : Reader) (uris : List String) (m m' : DocumentStateManager) (new : Dict DocumentState)
    → open_docs read uris m ≡ (ok new, m')
    → (m'.ref_counts ≡ tally uris m.ref_counts)
      × (m'.states ≡ update m.states new)
      × ((u : String) → member u new ≡ (contains u uris && not (member u m.states)))
unfolding open_begin
open_docs-ok read uris m m' new h =
    let r =
      open_rest-ok read (missing uris m.states) (record m { ref_counts = tally uris m.ref_counts })
        m' new (unfold open_docs in h) in
    (r.0, r.1, λ u. r.2 u ∙ contains-missing u uris m.states)

-- An `open` that returns adds each of its URIs as a holder.
pub open_docs-Holds :
    (read : Reader) (uris held : List String) (m m' : DocumentStateManager)
    (new : Dict DocumentState)
    → Holds m held
    → open_docs read uris m ≡ (ok new, m')
    → Holds m' (uris ++ held)
open_docs-Holds read uris held m m' new h e =
    let r = open_docs-ok read uris m m' new e in
    record {
      counts = λ u. ground (
        arith,
        r.0,
        count-tally u uris m.ref_counts,
        h.counts u,
        occ-append u uris held,
        pos_add (occ u held) (occ u uris),
      );
      states = λ u. ground (
        arith,
        r.1,
        r.2 u,
        h.states u,
        member-update u m.states new,
        occ-append u uris held,
        contains-iff_occ u uris,
      );
    }

-- A `close` of held URIs takes one holder away for each; a document whose last holder went loses
-- its state, and exactly those documents are reported.
pub close_docs-Holds :
    (uris held rest : List String) (m : DocumentStateManager)
    → Holds m held
    → ((u : String) → occ u held ≡ occ u uris + occ u rest)
    → Holds (close_docs uris m).0 rest
      × ((u : String)
          → contains u (close_docs uris m).1 ≡ (contains u uris && not (contains u rest)))
unfolding close_docs
close_docs-Holds uris held rest m h split =
    let c = subtract uris m.ref_counts in
    let s = record m { ref_counts = c } in
    let left : (u : String) → count u c ≡ pos (occ u rest) = λ u. ground (
      arith,
      count-subtract u uris m.ref_counts,
      h.counts u,
      split u,
      -ℤ_parts (pos (occ u held)) (pos (occ u uris)),
      eq_of_parts (pos (occ u held) -ℤ pos (occ u uris)) (pos (occ u rest)),
    ) in
    (
      record {
        counts = λ u. ground (arith, count-close_loop u uris s [], left u);
        states = λ u. ground (
          arith,
          lookup-close_loop u uris s [],
          left u,
          h.states u,
          split u,
          contains-iff_occ u uris,
        );
      },
      λ u. ground (
        arith,
        contains-close_loop u uris s [],
        left u,
        h.states u,
        split u,
        contains-iff_occ u uris,
        contains-iff_occ u rest,
      ),
    )

-- Documents opened by one `open` and closed by the matching `close`, whatever else is held: the
-- manager again stands for the same holders, and the documents reported as closed are those that
-- the `open` reported as new.
pub close-open_docs :
    (read : Reader) (uris held : List String) (m m' : DocumentStateManager)
    (new : Dict DocumentState)
    → Holds m held
    → open_docs read uris m ≡ (ok new, m')
    → Holds (close_docs uris m').0 held
      × ((u : String) → contains u (close_docs uris m').1 ≡ member u new)
close-open_docs read uris held m m' new h e =
    let opened = open_docs-Holds read uris held m m' new h e in
    let r = close_docs-Holds uris (uris ++ held) held m' opened (λ u. occ-append u uris held) in
    (
      r.0,
      λ u. ground (
        arith,
        r.1 u,
        (open_docs-ok read uris m m' new e).2 u,
        h.states u,
        contains-iff_occ u held,
      ),
    )
