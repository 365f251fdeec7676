-- ===== src/WorkspaceEdit/Tests.antt =====
-- Edits of the workspace in memory, in which "/w/a" is open and holds "a".
use lsp_client.Base.{ℕ, ◌≡◌, ◌≢◌, refl, inr, Option, none, some, List, [], ◌∷◌, ◌++◌, arith}
use lsp_client.Base.Dict.{lookup, insert}
use lsp_client.Base.Exec.{ok, err}
use lsp_client.Host.{from_local_uri}
use lsp_client.Lsp.{Position}
use lsp_client.Document.{DocumentState, get_version, get_content}
use lsp_client.Edit.{text_edit, apply_text_edits}
use lsp_client.Client.{World, did_change}
use lsp_client.Sample.{memory_host}
use lsp_client.Sample.World.{settings, world, a-IsStable, world-Holds}
use lsp_client.WorkspaceEdit.{
  TextDocumentEdit, DocumentChange, WorkspaceEdit, text_document_edit, create_file,
  apply_text_document_edit, apply_delete_file, apply_document_changes, apply_workspace_edit,
  move_state,
}
use lsp_client.WorkspaceEdit.Checks.{
  refusal, apply_text_document_edit-refused, apply_text_document_edit-applied,
}
use lsp_client.WorkspaceEdit.Resources.{move_state_lem}
use lsp_client.WorkspaceEdit.Consistent.{IsConsistent, apply_workspace_edit-IsConsistent}

abbrev start : Position
start = record { line = 0; character = 0 }

-- "b" before the text
abbrev put_b : Option ℕ → TextDocumentEdit
put_b version = record {
  uri = "/w/a";
  version = version;
  edits = text_edit (record { start = start; end = start }) (98 ∷ []) ∷ [];
}

abbrev edited : World memory_host
edited = (apply_text_document_edit memory_host settings (put_b (some 0)) world).1

apply_text_document_edit-applied_example :
    ((apply_text_document_edit memory_host settings (put_b (some 0)) world).0 ≡ ok tt)
    × (get_content "/w/a" edited.doc ≡ some (98 ∷ 97 ∷ []))
    × (get_version "/w/a" edited.doc ≡ some 1)
    × (edited.fs ≡ ("/w/a", 98 ∷ 97 ∷ []) ∷ [])
    × (edited.sent ≡ world.sent ++ did_change "/w/a" 1 (98 ∷ 97 ∷ []) ∷ [])
unfolding apply_text_edits insert get_content lookup get_version from_local_uri
apply_text_document_edit-applied_example =
    apply_text_document_edit-applied memory_host settings (put_b (some 0)) world
      (("/w/a", 98 ∷ 97 ∷ []) ∷ []) (97 ∷ []) 0 a-IsStable refl refl (inr refl) refl (λ v. refl)

version_a : get_version "/w/a" world.doc ≡ some 0
unfolding get_version lookup
version_a = refl

other_version : get_version "/w/a" world.doc ≢ some 3
other_version e = ground (arith, version_a, e)

apply_text_document_edit-refused_example :
    apply_text_document_edit memory_host settings (put_b (some 3)) world
    ≡ (err (refusal "/w/a" 3 (get_version "/w/a" world.doc)), world)
apply_text_document_edit-refused_example =
    apply_text_document_edit-refused memory_host settings (put_b (some 3)) world 3 refl
      other_version

abbrev state_a : DocumentState
state_a = record { content = 97 ∷ []; version = 0; encoding = "utf-8" }

move_state_lem_example :
    lookup "/w/b" (move_state memory_host settings "/w/a" "/w/b" world.doc).states ≡ some state_a
unfolding lookup
move_state_lem_example =
    move_state_lem memory_host settings "/w/a" "/w/b" "/w/b" world.doc state_a refl refl

abbrev deleted : World memory_host
deleted = (apply_delete_file memory_host settings "/w/a" none world).1

delete_ok : apply_delete_file memory_host settings "/w/a" none world ≡ (ok tt, deleted)
unfolding apply_delete_file lookup from_local_uri
delete_ok = refl

abbrev create_a : DocumentChange
create_a = create_file "/w/a" none

abbrev changes : List DocumentChange
changes = text_document_edit (put_b none) ∷ create_a ∷ []

abbrev changed : World memory_host
changed =
    (apply_document_changes memory_host settings (text_document_edit (put_b none) ∷ []) world).1

abbrev both : WorkspaceEdit
both = record { document_changes = some changes; changes = none }

apply_workspace_edit-IsConsistent_example :
    IsConsistent (apply_workspace_edit memory_host settings both world).1
apply_workspace_edit-IsConsistent_example =
    apply_workspace_edit-IsConsistent memory_host settings both world ("/w/a" ∷ [], world-Holds)
