-- ===== src/WorkspaceEdit.antt =====
-- utils/workspace_edit.py: `WorkspaceEditApplicator` and `iter_text_document_edits`, with the
-- answer to `workspace/applyEdit` of capability/server_request/apply_edit.py. An option that the
-- server left out counts as false.
pub mod Checks
pub mod Resources
pub mod Sequence
pub mod Consistent
pub mod Tests
use lsp_client.Base.{
  ℕ, zero, String, Bool, true, false, not, Option, none, some, List, [], ◌∷◌, ◌++◌, ◌==◌,
  if◌then◌else◌, is_some,
}
use lsp_client.Base.Dict.{Dict}
use lsp_client.Base.Exec.{Result, ok, err, Exec, pure, raise, lift, gets, ◌>>=◌, ◌>>◌, continue}
use lsp_client.Host.{
  Host, Text, Error, Reason, edit_application, version_mismatch, os_error, value_error, not_open,
  create_exists, source_missing, target_exists, delete_missing, not_empty, from_local_uri,
}
use lsp_client.Workspace.{from_uri}
use lsp_client.Document.{
  DocumentState, DocumentStateManager, get_version, get_content, register, unregister,
}
use lsp_client.Edit.{AnyTextEdit, apply_text_edits}
use lsp_client.Client.{Settings, World, Action, on_disk, read_file, write_file}

pub record TextDocumentEdit : Type 0 where
  pub uri : String
  pub version : Option ℕ
  pub edits : List AnyTextEdit

-- `CreateFileOptions` and `RenameFileOptions`
pub record WriteOptions : Type 0 where
  pub overwrite : Bool
  pub ignore_if_exists : Bool

pub record DeleteOptions : Type 0 where
  pub recursive : Bool
  pub ignore_if_not_exists : Bool

pub data DocumentChange : Type 0 where
  text_document_edit : TextDocumentEdit → DocumentChange
  create_file : String → Option WriteOptions → DocumentChange
  rename_file : String → String → Option WriteOptions → DocumentChange
  delete_file : String → Option DeleteOptions → DocumentChange

pub record WorkspaceEdit : Type 0 where
  pub document_changes : Option (List DocumentChange)
  pub changes : Option (Dict (List AnyTextEdit))

-- `options and options.overwrite`, and the like
abbrev pub overwrites : Option WriteOptions → Bool
overwrites none = false
overwrites (some o) = o.overwrite

abbrev pub ignores : Option WriteOptions → Bool
ignores none = false
ignores (some o) = o.ignore_if_exists

abbrev pub is_recursive : Option DeleteOptions → Bool
is_recursive none = false
is_recursive (some o) = o.recursive

abbrev pub ignores_missing : Option DeleteOptions → Bool
ignores_missing none = false
ignores_missing (some o) = o.ignore_if_not_exists

unfoldable pub text_edits_of : List DocumentChange → List (String × List AnyTextEdit)
text_edits_of [] = []
text_edits_of (text_document_edit e ∷ rest) = (e.uri, e.edits) ∷ text_edits_of rest
text_edits_of (create_file u o ∷ rest) = text_edits_of rest
text_edits_of (rename_file u v o ∷ rest) = text_edits_of rest
text_edits_of (delete_file u o ∷ rest) = text_edits_of rest

-- `if edit.document_changes: … elif edit.changes: …`: an empty list is passed over too
abbrev pub choose_changes {ℓ} :
    {A : Type ℓ} → Option (Dict (List AnyTextEdit)) → (Dict (List AnyTextEdit) → A) → A → A
choose_changes none g default = default
choose_changes (some []) g default = default
choose_changes (some (c ∷ cs)) g default = g (c ∷ cs)

abbrev pub choose {ℓ} :
    {A : Type ℓ} → Option (List DocumentChange) → (List DocumentChange → A) → A → A
choose none f legacy = legacy
choose (some []) f legacy = legacy
choose (some (c ∷ cs)) f legacy = f (c ∷ cs)

unfoldable pub iter_text_document_edits : WorkspaceEdit → List (String × List AnyTextEdit)
unfolding text_edits_of
iter_text_document_edits edit =
    choose edit.document_changes text_edits_of (choose_changes edit.changes (λ changes. changes) [])

-- `ApplyWorkspaceEditResult`: whether it was applied, or the exception that says why not
pub data ApplyResult : Type 0 where
  applied : ApplyResult
  failed : Error → ApplyResult

abbrev pub answer : Result Error (Unit {0}) → Result Error ApplyResult
answer (ok u) = ok applied
answer (err (edit_application r uri)) = ok (failed (edit_application r uri))
answer (err (version_mismatch uri e a)) = ok (failed (version_mismatch uri e a))
answer (err os_error) = ok (failed os_error)
answer (err value_error) = ok (failed value_error)
answer (err e) = err e

module _ (h : Host) (c : Settings) where
  -- What stands before the edits are read: the version that the edit expects.
  unfoldable pub check_version : String → Option ℕ → Action h c (Unit {0})
  check_version uri none w = (ok tt, w)
  check_version uri (some expected_version) w = elim (get_version uri w.doc) [
    | none ↦ (err (edit_application not_open uri), w)
    | some actual_version ↦
        if actual_version == expected_version
        then (ok tt, w)
        else (err (version_mismatch uri expected_version actual_version), w)
  ]

  -- Read, apply and write.
  unfoldable pub edit_file : String → List AnyTextEdit → Action h c (Unit {0})
  unfolding ◌>>=◌
  edit_file uri edits = do
    content ← read_file h c (from_uri h c.workspace uri false)
    write_file h c uri (apply_text_edits content edits)

  unfoldable pub apply_text_document_edit : TextDocumentEdit → Action h c (Unit {0})
  unfolding check_version edit_file ◌>>=◌
  apply_text_document_edit edit = do
    check_version edit.uri edit.version
    edit_file edit.uri edit.edits

  unfoldable pub apply_changes : Dict (List AnyTextEdit) → Action h c (Unit {0})
  unfolding edit_file ◌>>=◌
  apply_changes [] = pure tt
  apply_changes ((uri, edits) ∷ rest) = do edit_file uri edits; apply_changes rest

  -- `if parent and not await parent.exists(): await parent.mkdir(…)`
  unfoldable pub ensure_parent : h.FilePath → Action h c (Unit {0})
  unfolding on_disk
  ensure_parent p w =
      if h.exists (h.parent p) w.fs then (ok tt, w) else on_disk h c (h.mkdir (h.parent p)) w

  pub create : String → h.FilePath → Action h c (Unit {0})
  unfolding ensure_parent ◌>>=◌
  create uri file_path = do ensure_parent file_path; write_file h c uri []

  unfoldable pub apply_create_file : String → Option WriteOptions → Action h c (Unit {0})
  unfolding create
  apply_create_file uri options w =
      let file_path = from_local_uri h uri in
      if h.exists file_path w.fs
      then (if overwrites options
          then create uri file_path w
          else if ignores options
          then (ok tt, w)
          else (err (edit_application create_exists uri), w))
      else create uri file_path w

  -- `doc_state.get_version(old_uri) or 0`
  abbrev version_or_zero : Option ℕ → ℕ
  version_or_zero none = 0
  version_or_zero (some v) = v

  abbrev pub moved : String → String → Option Text → DocumentStateManager → DocumentStateManager
  moved old_uri new_uri none m = m
  moved old_uri new_uri (some content) m =
      let version = version_or_zero (get_version old_uri m) in
      (register new_uri content version "utf-8" (unregister old_uri m).1).1

  -- The document state follows a renamed file.
  unfoldable pub move_state : String → String → DocumentStateManager → DocumentStateManager
  move_state old_uri new_uri m = moved old_uri new_uri (get_content old_uri m) m

  on_doc : (DocumentStateManager → DocumentStateManager) → Action h c (Unit {0})
  on_doc f w = (ok tt, record w { doc = f w.doc })

  pub move : String → String → Action h c (Unit {0})
  unfolding ensure_parent on_disk move_state on_doc ◌>>=◌
  move old_uri new_uri = do
    ensure_parent (from_local_uri h new_uri)
    on_disk h c (h.rename (from_local_uri h old_uri) (from_local_uri h new_uri))
    on_doc (move_state old_uri new_uri)

  unfoldable pub apply_rename_file : String → String → Option WriteOptions → Action h c (Unit {0})
  unfolding move on_disk ◌>>=◌
  apply_rename_file old_uri new_uri options w =
      let new_path = from_local_uri h new_uri in
      if h.exists (from_local_uri h old_uri) w.fs
      then (if h.exists new_path w.fs
          then (if overwrites options
              then (do on_disk h c (h.unlink new_path); move old_uri new_uri) w
              else if ignores options
              then (ok tt, w)
              else (err (edit_application target_exists new_uri), w))
          else move old_uri new_uri w)
      else (err (edit_application source_missing old_uri), w)

  -- `except OSError` around `rmdir`
  abbrev not_empty_error : String → Result Error (Unit {0}) → Result Error (Unit {0})
  not_empty_error uri (err os_error) = err (edit_application not_empty uri)
  not_empty_error uri r = r

  remove_empty : String → h.FilePath → Action h c (Unit {0})
  unfolding on_disk
  remove_empty uri p w = let r = on_disk h c (h.rmdir p) w in (not_empty_error uri r.0, r.1)

  delete_path : String → Option DeleteOptions → h.FilePath → Action h c (Unit {0})
  unfolding remove_empty on_disk
  delete_path uri options p w =
      if h.is_dir p w.fs
      then (if is_recursive options then on_disk h c (h.rmtree p) w else remove_empty uri p w)
      else on_disk h c (h.unlink p) w

  unfoldable pub apply_delete_file : String → Option DeleteOptions → Action h c (Unit {0})
  unfolding delete_path on_doc ◌>>=◌
  apply_delete_file uri options w =
      let p = from_local_uri h uri in
      if h.exists p w.fs
      then (do delete_path uri options p; on_doc (λ m. (unregister uri m).1)) w
      else if ignores_missing options
      then (ok tt, w)
      else (err (edit_application delete_missing uri), w)

  unfoldable pub apply_change : DocumentChange → Action h c (Unit {0})
  apply_change (text_document_edit edit) = apply_text_document_edit edit
  apply_change (create_file uri options) = apply_create_file uri options
  apply_change (rename_file old_uri new_uri options) = apply_rename_file old_uri new_uri options
  apply_change (delete_file uri options) = apply_delete_file uri options

  unfoldable pub apply_document_changes : List DocumentChange → Action h c (Unit {0})
  unfolding ◌>>=◌
  apply_document_changes [] = pure tt
  apply_document_changes (change ∷ rest) = do apply_change change; apply_document_changes rest

  unfoldable pub apply_workspace_edit : WorkspaceEdit → Action h c (Unit {0})
  apply_workspace_edit edit =
      choose edit.document_changes apply_document_changes
        (choose_changes edit.changes apply_changes (pure tt))

  -- `_respond_apply_edit`: three kinds of exceptions become an answer
  unfoldable pub respond_apply_edit : WorkspaceEdit → Action h c ApplyResult
  respond_apply_edit edit w = let r = apply_workspace_edit edit w in (answer r.0, r.1)
