-- ===== src/WorkspaceEdit/Checks.antt =====
-- The version check, and a text edit of an open document.
use lsp_client.Base.{
  ℕ, ◌+◌, ◌≡◌, ◌≢◌, refl, ap, ◌∙◌, ◌⊎◌, String, false, Option, none, some, [], ◌∷◌, ◌++◌, arith,
  eq_refl,
}
use lsp_client.Base.Dict.{lookup}
use lsp_client.Base.Exec.{ok, err, bind-ok}
use lsp_client.Host.{
  Host, Text, Error, edit_application, version_mismatch, not_open, from_local_uri,
}
use lsp_client.Workspace.{from_uri}
use lsp_client.Document.{get_content, get_encoding, update_content, get_version}
use lsp_client.Document.Updates.{bumped, update_content_lem}
use lsp_client.Edit.{apply_text_edits}
use lsp_client.Client.{did_change, Settings, World, read_file}
use lsp_client.Client.Mirror.{IsStable, Delivered, told, write_file-ok}
use lsp_client.WorkspaceEdit.{TextDocumentEdit, check_version, edit_file, apply_text_document_edit}

-- The refusal of an edit that expects a version, by the version that the document has.
abbrev pub refusal : String → ℕ → Option ℕ → Error
refusal uri expected none = edit_application not_open uri
refusal uri expected (some actual) = version_mismatch uri expected actual

module _ (h : Host) (c : Settings) (edit : TextDocumentEdit) (w : World h) (v : ℕ)
    (expected : edit.version ≡ some v) where
  -- An edit that expects a version which the document does not have, open or not, is refused and
  -- nothing changes: no state, no file, and nothing is sent.
  pub apply_text_document_edit-refused :
      get_version edit.uri w.doc ≢ some v
      → apply_text_document_edit h c edit w
        ≡ (err (refusal edit.uri v (get_version edit.uri w.doc)), w)
  unfolding apply_text_document_edit check_version
  apply_text_document_edit-refused other = go (get_version edit.uri w.doc) refl
    where
      go :
          (o : Option ℕ)
          → get_version edit.uri w.doc ≡ o
          → apply_text_document_edit h c edit w ≡ (err (refusal edit.uri v o), w)
      go none e = ground arith
      go (some a) e = ground (arith, λ (k : a ≡ v). other (e ∙ ap some k))

module _ (h : Host) (c : Settings) (edit : TextDocumentEdit) (w : World h) (fs' : h.Fs)
    (content : Text) (v : ℕ) where
  -- An edit of an open document, at a URI that the client writes for its path, that expects no
  -- version or the one which the document has, and whose file is written without error, where a
  -- notification of the text is sent in time: the text with the edits applied is on disk and in
  -- the document's state, the version goes up by one, and the server is sent this text with this
  -- version.
  pub apply_text_document_edit-applied :
      let new = apply_text_edits content edit.edits in
      IsStable h c edit.uri
      → get_content edit.uri w.doc ≡ some content
      → get_version edit.uri w.doc ≡ some v
      → (edit.version ≡ none) ⊎ (edit.version ≡ some v)
      → h.write_text (from_local_uri h edit.uri) new (get_encoding edit.uri "utf-8" w.doc) w.fs
        ≡ (ok tt, fs')
      → Delivered h c edit.uri new w
      → let w' = (apply_text_document_edit h c edit w).1 in
        ((apply_text_document_edit h c edit w).0 ≡ ok tt)
        × (get_content edit.uri w'.doc ≡ some new)
        × (get_version edit.uri w'.doc ≡ some (v + 1))
        × (w'.fs ≡ fs')
        × (w'.sent ≡ w.sent ++ did_change edit.uri (v + 1) new ∷ [])
  unfolding apply_text_document_edit get_version get_content
  apply_text_document_edit-applied stable opened versioned fits written delivered =
      let uri = edit.uri in
      let new : Text = apply_text_edits content edit.edits in
      let u = update_content uri new w.doc in
      let passed : check_version h c uri edit.version w ≡ (ok tt, w) =
        unfold check_version get_version in ground (arith, fits) in
      let read : read_file h c (from_uri h c.workspace uri false) w ≡ (ok content, w) =
        unfold read_file from_uri get_content in ground (arith, stable, opened) in
      let wrote = write_file-ok h c uri new w fs' stable written delivered in
      let done =
        bind-ok (check_version h c uri edit.version) (λ _. edit_file h c uri edit.edits) w passed
        ∙ bind-ok (read_file h c (from_uri h c.workspace uri false)) _ w read
        ∙ wrote in
      let next : lookup uri u.1.states ≡ bumped new (lookup uri w.doc.states) =
        simp ((update_content_lem uri new w.doc).0, eq_refl) in
      let number : u.0 ≡ some (v + 1) =
        ground (arith, next, versioned, (update_content_lem uri new w.doc).2) in
      rw done (
        refl,
        ground (arith, next, opened),
        ground (arith, next, versioned),
        refl,
        ap (λ (o : Option ℕ). w.sent ++ told uri new o) number,
      )
