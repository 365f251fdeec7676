-- ===== src/Client/Body.antt =====
-- `open_files` around a call that a client makes of its server: in which state it is made, and
-- what comes of the whole.
use lsp_client.Base.{
  ◌≡◌, refl, ap, ◌∙◌, ◌⊎◌, inl, inr, String, true, List, [], ◌∷◌, ◌++◌, arith, contains, All,
}
use lsp_client.Base.Dict.{Dict, member}
use lsp_client.Base.Exec.{Result, ok, err, continue, bind-ok, bind-err}
use lsp_client.Host.{Host, Error, timeout_error}
use lsp_client.Document.{
  DocumentState, DocumentStateManager, open_docs, close_docs, close_loop, subtract,
}
use lsp_client.Document.Counts.{member-update}
use lsp_client.Document.Holders.{open_docs-ok}
use lsp_client.Client.{
  Settings, World, with_open, open_files, as_uris, open_in_doc, close_in_doc, reader, notify_opened,
  notify_closed, after, finally,
}
use lsp_client.Client.Mirror.{Mirrors, IsStable}
use lsp_client.Client.Opening.{opened_notes, notify_closed-Tells}
use lsp_client.Client.Sessions.{opened-Mirrors, All-close_loop, with_open-IsLate}

module _ (h : Host) (c : Settings) where
  -- Each of the documents is open, and the server has what the client has.
  abbrev pub Ready : List String → World h → Type 0
  Ready uris w = ((u : String) → contains u uris ≡ true → member u w.doc.states ≡ true) × Mirrors w

  module _ {A : Type 0} (body : World h → Result Error A × World h) where
    -- The outcome of the whole is that of the body, unless a `didClose` is not sent in time.
    finally-close :
        (uris : List String) (w : World h)
        → All (IsStable h c) uris
        → (finally h c body
              (λ v.
                continue
                  (close_in_doc h c uris v).0
                  (notify_closed h c)
                  (close_in_doc h c uris v).1)
              w).0
            ≡ (body w).0
          ⊎ ((finally h c body
                (λ v.
                  continue
                    (close_in_doc h c uris v).0
                    (notify_closed h c)
                    (close_in_doc h c uris v).1)
                w).0
              ≡ err timeout_error)
    unfolding finally close_in_doc close_docs
    finally-close uris w s =
        let v = (body w).1 in
        let m' = record v.doc { ref_counts = subtract uris v.doc.ref_counts } in
        let r = close_loop uris m' [] in
        let told =
          notify_closed-Tells h c r.1 (record v { doc = r.0 })
            (All-close_loop h c uris m' [] s tt) in
        elim told [
          | inl sent ↦
              inl (ap (λ (q : Result Error (Unit {0}) × World h). after h c (body w).0 q.0) sent)
          | inr late ↦ inr (ap (after h c (body w).0) late)
        ]

    -- Either opening raised, and nothing was sent or changed but the counts; or a notification was
    -- not sent in time, which is raised; or the outcome is that of the body in a state where the
    -- documents are open.
    abbrev pub RunsOpen : List String → World h → Result Error A × World h → Type 0
    RunsOpen uris w r =
        ((e : Error) × (r.0 ≡ err e) × (r.1.sent ≡ w.sent))
        ⊎ ((r.0 ≡ err timeout_error) ⊎ ((v : World h) × Ready uris v × (r.0 ≡ (body v).0)))

    ready :
        (uris : List String) (w : World h) (new : Dict DocumentState) (m' : DocumentStateManager)
        → All (IsStable h c) uris
        → Mirrors w
        → open_docs (reader h c w.fs) uris w.doc ≡ (ok new, m')
        → Ready uris (record w { doc = m'; sent = w.sent ++ opened_notes c.language_id new })
    ready uris w new m' s m k =
        let o = open_docs-ok (reader h c w.fs) uris w.doc m' new k in
        (
          λ u here. ground (arith, o.1, o.2 u, member-update u w.doc.states new),
          (opened-Mirrors h c uris w new m' s m k).1,
        )

    with_open-RunsOpen :
        (uris : List String) (w : World h)
        → All (IsStable h c) uris
        → Mirrors w
        → RunsOpen uris w (with_open h c uris body w)
    unfolding with_open
    with_open-RunsOpen [] w s m = inr (inr (w, (λ u here. cc, m), refl))
    with_open-RunsOpen (u ∷ us) w s m = go (open_docs (reader h c w.fs) (u ∷ us) w.doc) refl
      where
        go :
            (r : Result Error (Dict DocumentState) × DocumentStateManager)
            → open_docs (reader h c w.fs) (u ∷ us) w.doc ≡ r
            → RunsOpen (u ∷ us) w (with_open h c (u ∷ us) body w)
        go (err e, m') k =
            let failed : open_in_doc h c (u ∷ us) w ≡ (err e, record w { doc = m' }) = rw k in
            let whole = bind-err (open_in_doc h c (u ∷ us)) _ w failed in
            inl (e, ap (λ r. r.0) whole, ap (λ r. r.1.sent) whole)
        go (ok new, m') k =
            let opened : open_in_doc h c (u ∷ us) w ≡ (ok new, record w { doc = m' }) = rw k in
            elim (opened-Mirrors h c (u ∷ us) w new m' s m k).0 [
              | inr late ↦ inr (inl (with_open-IsLate h c body u us w new m' k late))
              | inl notes ↦
                  let v = record w { doc = m'; sent = w.sent ++ opened_notes c.language_id new } in
                  let whole =
                    ap (λ r. r.0)
                      (bind-ok (open_in_doc h c (u ∷ us)) _ w opened
                        ∙ bind-ok (notify_opened h c new) _ (record w { doc = m' }) notes) in
                  elim (finally-close (u ∷ us) v s) [
                    | inl own ↦ inr (inr (v, ready (u ∷ us) w new m' s m k, whole ∙ own))
                    | inr late ↦ inr (inl (whole ∙ late))
                  ]
            ]

    -- With synchronization on, if the server has the client's open documents before and the URIs
    -- of the files are those that the client writes for their paths, `open_files` either raises
    -- before its body, and has then sent nothing, or raises that a notification was not sent in
    -- time, or its outcome is that of the body, run where each file's document is open and the
    -- server has the client's documents.
    pub open_files-RunsOpen :
        (file_paths : List h.FilePath) (uris : List String) (w : World h)
        → c.sync_file ≡ true
        → as_uris h c file_paths ≡ ok uris
        → All (IsStable h c) uris
        → Mirrors w
        → RunsOpen uris w (open_files h c file_paths body w)
    unfolding open_files
    open_files-RunsOpen file_paths uris w on e s m = simp (on, e) (with_open-RunsOpen uris w s m)
