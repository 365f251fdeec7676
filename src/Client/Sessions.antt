-- ===== src/Client/Sessions.antt =====
-- `open_files`: while its body runs, and after it, the server has the client's open documents.
use lsp_client.Base.{◌≡◌, ap, ◌∙◌, String, List, [], ◌∷◌, ◌++◌, inl, inr}
use lsp_client.Base.Dict.{Dict, member}
use lsp_client.Base.Exec.{Result, ok, err}
use lsp_client.Host.{Host, Error, timeout_error}
use lsp_client.Document.{
  DocumentState, DocumentStateManager, open_docs, missing, close_docs, close_loop, close_one, tally,
  open_begin, count,
}
use lsp_client.Client.{
  Settings, World, with_open, open_in_doc, reader, notify_opened, notify_closed,
}
use lsp_client.Base.{All, Bool-cases}
use lsp_client.Base.Exec.{bind-ok, bind-err}
use lsp_client.Base.Int.{is_nonpos}
use lsp_client.Document.Holders.{open_docs-ok}
use lsp_client.Client.Mirror.{replay, Mirrors, IsStable}
use lsp_client.Client.Opening.{
  Tells, opened_notes, replay-append_all, Shows-opened, notify_opened-Tells, All-missing,
  open_rest-IsNew,
}

module _ (h : Host) (c : Settings) where
  -- After `open` and its notifications the server has the newly opened documents too.
  pub opened-Mirrors :
      (uris : List String) (w : World h) (new : Dict DocumentState) (m' : DocumentStateManager)
      → All (IsStable h c) uris
      → Mirrors w
      → open_docs (reader h c w.fs) uris w.doc ≡ (ok new, m')
      → Tells
          (record w { doc = m' })
          (opened_notes c.language_id new)
          (notify_opened h c new (record w { doc = m' }))
        × Mirrors (record w { doc = m'; sent = w.sent ++ opened_notes c.language_id new })
  opened-Mirrors uris w new m' s m e =
      let fresh =
        open_rest-IsNew h c (reader h c w.fs) (missing uris w.doc.states)
          (record w.doc { ref_counts = tally uris w.doc.ref_counts }) m' new
          (All-missing h c uris w.doc.states s) (unfold open_docs open_begin in e) in
      (
        notify_opened-Tells h c new (record w { doc = m' }) fresh,
        λ u.
            rw
              (
                replay-append_all w.sent (opened_notes c.language_id new) [],
                (open_docs-ok (reader h c w.fs) uris w.doc m' new e).1,
              )
              (Shows-opened h c new (replay w.sent []) w.doc.states fresh m u),
      )

  All-add :
      (u : String) (l : List String)
      → IsStable h c u
      → All (IsStable h c) l
      → All (IsStable h c) (l ++ u ∷ [])
  All-add u [] a b = (a, tt)
  All-add u (v ∷ l) a b = (b.0, All-add u l a b.1)

  All-close_one :
      (u : String) (m : DocumentStateManager) (closed : List String)
      → IsStable h c u
      → All (IsStable h c) closed
      → All (IsStable h c) (close_one u m closed).1
  unfolding close_one
  All-close_one u m closed a b = elim (Bool-cases (is_nonpos (count u m.ref_counts))) [
    | inr held ↦ rw held b
    | inl last ↦ elim (Bool-cases (member u m.states)) [
      | inl there ↦ rw (last, there) (All-add u closed a b)
      | inr gone ↦ rw (last, gone) b
    ]
  ]

  pub All-close_loop :
      (uris : List String) (m : DocumentStateManager) (closed : List String)
      → All (IsStable h c) uris
      → All (IsStable h c) closed
      → All (IsStable h c) (close_loop uris m closed).1
  unfolding close_loop
  All-close_loop [] m closed a b = b
  All-close_loop (u ∷ us) m closed a b =
      All-close_loop us (close_one u m closed).0 (close_one u m closed).1 a.1
        (All-close_one u m closed a.0 b)

  module _ {A : Type 0} (body : World h → Result Error A × World h) where
    -- The client waits for the server in vain, and raises that.
    abbrev pub IsLate : Result Error A × World h → Type 0
    IsLate r = r.0 ≡ err timeout_error

    pub with_open-IsLate :
        (u : String) (us : List String) (w : World h) (new : Dict DocumentState)
        (m' : DocumentStateManager)
        → open_docs (reader h c w.fs) (u ∷ us) w.doc ≡ (ok new, m')
        → (notify_opened h c new (record w { doc = m' })).0 ≡ err timeout_error
        → IsLate (with_open h c (u ∷ us) body w)
    unfolding with_open
    with_open-IsLate u us w new m' k n =
        let opened : open_in_doc h c (u ∷ us) w ≡ (ok new, record w { doc = m' }) = rw k in
        let t = (notify_opened h c new (record w { doc = m' })).1 in
        let late : notify_opened h c new (record w { doc = m' }) ≡ (err timeout_error, t) =
          ap (λ e. (e, t)) n in
        ap (λ r. r.0)
          (bind-ok (open_in_doc h c (u ∷ us)) _ w opened
            ∙ bind-err (notify_opened h c new) _ (record w { doc = m' }) late)

    -- What the body and the closing come to, where the documents are open.
    closing : List String → World h → Result Error (Unit {0}) × World h
    closing uris v =
        notify_closed h c (close_docs uris v.doc).1 (record v { doc = (close_docs uris v.doc).0 })
