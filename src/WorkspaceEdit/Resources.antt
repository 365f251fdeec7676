-- ===== src/WorkspaceEdit/Resources.antt =====
-- What renaming and deleting a file does to the documents' states.
use lsp_client.Base.{
  ◌≡◌, String, true, false, Option, none, some, if◌then◌else◌, arith, eq_iff, str_eq,
}
use lsp_client.Base.Dict.{lookup, lookup-insert, lookup-remove}
use lsp_client.Base.Exec.{ok}
use lsp_client.Host.{Host, from_local_uri}
use lsp_client.Document.{
  DocumentState, DocumentStateManager, get_content, get_version, register, unregister,
}
use lsp_client.Client.{Settings, World}
use lsp_client.WorkspaceEdit.{DeleteOptions, move_state, apply_delete_file, delete_path, on_doc}

-- The state that a renamed document leaves at its new URI.
abbrev pub renamed_state : Option DocumentState → DocumentState → Option DocumentState
renamed_state none s = some (record s { encoding = "utf-8" })
renamed_state (some t) s = some t

-- What a rename of an open document to another URI does to the states: the document is gone from
-- its old URI. At the new one it has its text and version, but its encoding is UTF-8 whatever it
-- was; if a document was open there, as when its file is overwritten, that one's state stays and
-- the text moved is lost.
pub move_state_lem :
    (h : Host) (c : Settings) (u v x : String) (m : DocumentStateManager) (s : DocumentState)
    → str_eq u v ≡ false
    → lookup u m.states ≡ some s
    → lookup x (move_state h c u v m).states ≡ (
        if str_eq u x
        then none
        else if str_eq v x
        then renamed_state (lookup v m.states) s
        else lookup x m.states)
unfolding move_state get_content get_version
move_state_lem h c u v x m s apart found =
    let m' = (unregister u m).1 in
    let after : (y : String)
        → lookup y m'.states ≡ (if str_eq u y then none else lookup y m.states) =
      λ y. unfold unregister in ground (arith, found, lookup-remove u y m.states) in
    let s' : DocumentState = record s { encoding = "utf-8" } in
    unfold register in
    ground (
      arith,
      found,
      after v,
      after x,
      lookup-insert v x s' m'.states,
      eq_iff v x,
      eq_iff u x,
      eq_iff u v,
    )

-- A delete that succeeds on a path that is there leaves the document at its URI without a state,
-- and every other document with the state that it had.
pub apply_delete_file-closed :
    (h : Host) (c : Settings) (w w' : World h) (uri : String) (o : Option DeleteOptions)
    → h.exists (from_local_uri h uri) w.fs ≡ true
    → apply_delete_file h c uri o w ≡ (ok tt, w')
    → (x : String) → lookup x w'.doc.states ≡ (if str_eq uri x then none else lookup x w.doc.states)
unfolding apply_delete_file on_doc
apply_delete_file-closed h c w w' uri o there done x =
    let removed : lookup x (unregister uri w.doc).1.states
        ≡ (if str_eq uri x then none else lookup x w.doc.states) =
      unfold unregister in ground (arith, lookup-remove uri x w.doc.states, eq_iff uri x) in
    let same : (delete_path h c uri o (from_local_uri h uri) w).1.doc ≡ w.doc =
      unfold delete_path in ground arith in
    ground (arith, removed, same)
