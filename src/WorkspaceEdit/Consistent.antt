-- ===== src/WorkspaceEdit/Consistent.antt =====
-- What every workspace edit keeps of the open documents.
use lsp_client.Base.{
  ℕ, ◌≡◌, refl, sym, subst, ◌⊎◌, String, false, Option, none, some, List, [], ◌∷◌, arith,
  Bool-cases, inl, inr,
}
use lsp_client.Base.Dict.{Dict, member}
use lsp_client.Base.Exec.{Result, ok, Exec, pure, Keeps, Keeps-bind, Keeps-if}
use lsp_client.Host.{Host, Text, Error, from_local_uri}
use lsp_client.Workspace.{from_uri}
use lsp_client.Document.{DocumentStateManager, get_content, update_content, register, unregister}
use lsp_client.Document.Updates.{update_content_lem, register-Holds, unregister-Holds, except}
use lsp_client.Document.Holders.{Holds}
use lsp_client.Edit.{AnyTextEdit, apply_text_edits}
use lsp_client.Client.{Settings, World, Action, read_file, write_file, on_disk}
use lsp_client.WorkspaceEdit.{
  TextDocumentEdit, WriteOptions, DeleteOptions, DocumentChange, WorkspaceEdit, text_document_edit,
  create_file, rename_file, delete_file, check_version, edit_file, apply_text_document_edit,
  apply_changes, ensure_parent, apply_create_file, move_state, apply_rename_file, apply_delete_file,
  apply_change, apply_document_changes, apply_workspace_edit, choose, moved, choose_changes, create,
  move, delete_path, on_doc, overwrites, ignores, ignores_missing,
}

-- The manager of the open documents stands for some list of holders.
abbrev pub IsConsistent : {h : Host} → World h → Type 0
IsConsistent w = (held : List String) × Holds w.doc held

module _ (h : Host) (c : Settings) where
  Holds-update :
      (uri : String) (content : Text) (m : DocumentStateManager) (held : List String)
      → Holds m held
      → Holds (update_content uri content m).1 held
  Holds-update uri content m held k =
      let u = update_content_lem uri content m in
      record {
        counts = λ v. rw (u.1) (k.counts v);
        states = λ v. ground (arith, u.0 v, k.states v);
      }

  -- What each operation may do to the manager.
  doc-write_file :
      (uri : String) (content : Text) (w : World h)
      → ((write_file h c uri content w).1.doc ≡ w.doc)
        ⊎ ((write_file h c uri content w).1.doc ≡ (update_content uri content w.doc).1)
  unfolding write_file
  doc-write_file uri content w = ground arith

  module _ {A : Type 0} (m : Action h c A) where
    Keeps-of_doc : ((w : World h) → (m w).1.doc ≡ w.doc) → Keeps IsConsistent m
    Keeps-of_doc same = record {
      at = λ w k. subst (λ d. (held : List String) × Holds d held) (sym (same w)) k;
    }

  write_file-Keeps :
      (uri : String) (content : Text) → Keeps IsConsistent (write_file h c uri content)
  write_file-Keeps uri content = record { at = λ w k. go w k (doc-write_file uri content w) }
    where
      go :
          (w : World h)
          → IsConsistent w
          → ((write_file h c uri content w).1.doc ≡ w.doc)
            ⊎ ((write_file h c uri content w).1.doc ≡ (update_content uri content w.doc).1)
          → IsConsistent (write_file h c uri content w).1
      go w k (inl e) = subst (λ d. (held : List String) × Holds d held) (sym e) k
      go w k (inr e) =
          subst (λ d. (held : List String) × Holds d held) (sym e)
            (k.0, Holds-update uri content w.doc k.0 k.1)

  edit_file-Keeps :
      (uri : String) (edits : List AnyTextEdit) → Keeps IsConsistent (edit_file h c uri edits)
  unfolding edit_file
  edit_file-Keeps uri edits =
      Keeps-bind (read_file h c (from_uri h c.workspace uri false)) _
        (Keeps-of_doc (read_file h c (from_uri h c.workspace uri false))
          (λ w. unfold read_file in ground arith))
        λ content. write_file-Keeps uri (apply_text_edits content edits)

  apply_text_document_edit-Keeps :
      (edit : TextDocumentEdit) → Keeps IsConsistent (apply_text_document_edit h c edit)
  unfolding apply_text_document_edit
  apply_text_document_edit-Keeps edit =
      Keeps-bind (check_version h c edit.uri edit.version) _
        (Keeps-of_doc (check_version h c edit.uri edit.version)
          (λ w. unfold check_version in ground arith))
        λ _. edit_file-Keeps edit.uri edit.edits

  apply_changes-Keeps :
      (changes : Dict (List AnyTextEdit)) → Keeps IsConsistent (apply_changes h c changes)
  unfolding apply_changes
  apply_changes-Keeps [] = record { at = λ w k. k }
  apply_changes-Keeps ((uri, edits) ∷ rest) =
      Keeps-bind (edit_file h c uri edits) _ (edit_file-Keeps uri edits)
        λ _. apply_changes-Keeps rest

  ensure_parent-Keeps : (p : h.FilePath) → Keeps IsConsistent (ensure_parent h c p)
  ensure_parent-Keeps p =
      Keeps-of_doc (ensure_parent h c p) (λ w. unfold ensure_parent in ground arith)

  on_disk-Keeps : {A : Type 0} (m : Exec h.Fs Error A) → Keeps IsConsistent (on_disk h c m)
  on_disk-Keeps m = Keeps-of_doc (on_disk h c m) (λ w. unfold on_disk in refl)

  create-Keeps : (uri : String) (p : h.FilePath) → Keeps IsConsistent (create h c uri p)
  unfolding create
  create-Keeps uri p =
      Keeps-bind (ensure_parent h c p) _ (ensure_parent-Keeps p) λ _. write_file-Keeps uri []

  stay : (r : Result Error (Unit {0})) → Keeps {S = World h} IsConsistent (λ w. (r, w))
  stay r = record { at = λ w k. k }

  apply_create_file-Keeps :
      (uri : String) (o : Option WriteOptions) → Keeps IsConsistent (apply_create_file h c uri o)
  unfolding apply_create_file
  apply_create_file-Keeps uri o =
      let p = from_local_uri h uri in
      Keeps-if (λ w. h.exists p w.fs) _ _
        (Keeps-if (λ w. overwrites o) _ _ (create-Keeps uri p)
          (Keeps-if (λ w. ignores o) _ _ (stay (ok tt)) (stay _)))
        (create-Keeps uri p)

  register_IsConsistent :
      (uri encoding : String) (content : Text) (version : ℕ) (held : List String)
      (m : DocumentStateManager)
      → Holds m held
      → (held' : List String) × Holds (register uri content version encoding m).1 held'
  register_IsConsistent uri encoding content version held m k =
      elim (Bool-cases (member uri m.states)) [
        | inl there ↦ (held, unfold register in rw there k)
        | inr new ↦ (
          uri ∷ held,
          (register-Holds uri encoding content version held m k (ground (arith, k.states uri))).0,
        )
      ]

  move_state_IsConsistent :
      (u v : String) (held : List String) (m : DocumentStateManager)
      → Holds m held
      → (held' : List String) × Holds (move_state h c u v m) held'
  unfolding move_state
  move_state_IsConsistent u v held m k = go (get_content u m)
    where
      go : (o : Option Text) → (held' : List String) × Holds (moved h c u v o m) held'
      go none = (held, k)
      go (some content) =
          register_IsConsistent v "utf-8" content _ (except u held) (unregister u m).1
            (unregister-Holds u held m k)

  move-Keeps : (u v : String) → Keeps IsConsistent (move h c u v)
  unfolding move on_doc
  move-Keeps u v =
      Keeps-bind (ensure_parent h c (from_local_uri h v)) _
        (ensure_parent-Keeps (from_local_uri h v))
        λ _.
          Keeps-bind (on_disk h c (h.rename (from_local_uri h u) (from_local_uri h v))) _
            (on_disk-Keeps (h.rename (from_local_uri h u) (from_local_uri h v)))
            λ _. record { at = λ w k. move_state_IsConsistent u v k.0 w.doc k.1 }

  apply_rename_file-Keeps :
      (u v : String) (o : Option WriteOptions) → Keeps IsConsistent (apply_rename_file h c u v o)
  unfolding apply_rename_file
  apply_rename_file-Keeps u v o =
      let p = from_local_uri h v in
      Keeps-if (λ w. h.exists (from_local_uri h u) w.fs) _ _
        (Keeps-if (λ w. h.exists p w.fs) _ _
          (Keeps-if (λ w. overwrites o) _ _
            (Keeps-bind (on_disk h c (h.unlink p)) _ (on_disk-Keeps (h.unlink p))
              (λ _. move-Keeps u v))
            (Keeps-if (λ w. ignores o) _ _ (stay (ok tt)) (stay _)))
          (move-Keeps u v))
        (stay _)

  delete_path-Keeps :
      (uri : String) (o : Option DeleteOptions) (p : h.FilePath)
      → Keeps IsConsistent (delete_path h c uri o p)
  delete_path-Keeps uri o p =
      Keeps-of_doc (delete_path h c uri o p) (λ w. unfold delete_path in ground arith)

  apply_delete_file-Keeps :
      (uri : String) (o : Option DeleteOptions) → Keeps IsConsistent (apply_delete_file h c uri o)
  unfolding apply_delete_file on_doc
  apply_delete_file-Keeps uri o =
      let p = from_local_uri h uri in
      Keeps-if (λ w. h.exists p w.fs) _ _
        (Keeps-bind (delete_path h c uri o p) _ (delete_path-Keeps uri o p)
          λ _. record { at = λ w k. (except uri k.0, unregister-Holds uri k.0 w.doc k.1) })
        (Keeps-if (λ w. ignores_missing o) _ _ (stay (ok tt)) (stay _))

  apply_change-Keeps : (change : DocumentChange) → Keeps IsConsistent (apply_change h c change)
  unfolding apply_change
  apply_change-Keeps (text_document_edit edit) = apply_text_document_edit-Keeps edit
  apply_change-Keeps (create_file u o) = apply_create_file-Keeps u o
  apply_change-Keeps (rename_file u v o) = apply_rename_file-Keeps u v o
  apply_change-Keeps (delete_file u o) = apply_delete_file-Keeps u o

  apply_document_changes-Keeps :
      (changes : List DocumentChange) → Keeps IsConsistent (apply_document_changes h c changes)
  unfolding apply_document_changes
  apply_document_changes-Keeps [] = record { at = λ w k. k }
  apply_document_changes-Keeps (x ∷ xs) =
      Keeps-bind (apply_change h c x) _ (apply_change-Keeps x) λ _. apply_document_changes-Keeps xs

  -- A workspace edit of any changes, whether it is applied or raises, leaves a manager whose
  -- counts and states agree.
  pub apply_workspace_edit-IsConsistent :
      (edit : WorkspaceEdit) (w : World h)
      → IsConsistent w
      → IsConsistent (apply_workspace_edit h c edit w).1
  unfolding apply_workspace_edit
  apply_workspace_edit-IsConsistent edit w k = (go edit.document_changes edit.changes).at w k
    where
      legacy :
          (l : Option (Dict (List AnyTextEdit)))
          → Keeps IsConsistent (choose_changes l (apply_changes h c) (pure tt))
      legacy none = record { at = λ v q. unfold pure in q }
      legacy (some []) = record { at = λ v q. unfold pure in q }
      legacy (some (x ∷ xs)) = apply_changes-Keeps (x ∷ xs)

      go :
          (d : Option (List DocumentChange)) (l : Option (Dict (List AnyTextEdit)))
          → Keeps IsConsistent (
              choose d
                (apply_document_changes h c)
                (choose_changes l (apply_changes h c) (pure tt)))
      go none l = legacy l
      go (some []) l = legacy l
      go (some (x ∷ xs)) l = apply_document_changes-Keeps (x ∷ xs)
