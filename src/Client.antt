-- ===== src/Client.antt =====
-- client/abc.py: reading, writing and opening files, and the notifications of
-- capability/notification/text_document_synchronize.py. A notification that is sent is recorded
-- in order; whether it is sent in time is a parameter, and one that is not counts as not sent.
pub mod Mirror
pub mod Opening
pub mod Sessions
pub mod Body
pub mod Tests
use lsp_client.Base.{
  ℕ, zero, String, Bool, true, false, Option, none, some, List, [], ◌∷◌, ◌++◌, if◌then◌else◌,
}
use lsp_client.Base.Dict.{Dict}
use lsp_client.Base.Exec.{Result, ok, err, Exec, pure, raise, lift, gets, ◌>>=◌, ◌>>◌, continue}
use lsp_client.Host.{Host, Text, Error, value_error, timeout_error, from_local_uri}
use lsp_client.Workspace.{Workspace, as_uri, from_uri}
use lsp_client.Document.{
  DocumentState, DocumentStateManager, Reader, open_docs, close_docs, get_content, get_encoding,
  update_content,
}

pub data Notification : Type 0 where
  -- uri, language, version, text
  did_open : String → String → ℕ → Text → Notification
  -- uri, version, the text of the one whole-document change
  did_change : String → ℕ → Text → Notification
  did_close : String → Notification

-- The parts of a client that do not change.
pub record Settings : Type 0 where
  pub workspace : Workspace
  pub sync_file : Bool
  pub language_id : String
  -- whether a notification is sent within `request_timeout`, behind those sent before
  pub delivers : List Notification → Notification → Bool

-- The parts that do: the open documents, the disk, and what was sent.
pub record World (h : Host) : Type 0 where
  pub doc : DocumentStateManager
  pub fs : h.Fs
  pub sent : List Notification

module _ (h : Host) (c : Settings) where
  abbrev pub Action : Type 0 → Type 0
  Action A = Exec (World h) Error A

  notify : Notification → Action (Unit {0})
  notify n w =
      if c.delivers w.sent n
      then (ok tt, record w { sent = w.sent ++ n ∷ [] })
      else (err timeout_error, w)

  -- Runs a call of the file system.
  unfoldable pub on_disk : {A : Type 0} → Exec h.Fs Error A → Action A
  on_disk m w = let r = m w.fs in (r.0, record w { fs = r.1 })

  unfoldable pub notify_text_document_opened : h.FilePath → Text → Action (Unit {0})
  unfolding notify ◌>>=◌
  notify_text_document_opened file_path file_content = do
    uri ← lift (as_uri h c.workspace file_path)
    notify (did_open uri c.language_id 0 file_content)

  unfoldable pub notify_text_document_changed : h.FilePath → Text → ℕ → Action (Unit {0})
  unfolding notify ◌>>=◌
  notify_text_document_changed file_path text version = do
    uri ← lift (as_uri h c.workspace file_path)
    notify (did_change uri version text)

  unfoldable pub notify_text_document_closed : h.FilePath → Action (Unit {0})
  unfolding notify ◌>>=◌
  notify_text_document_closed file_path = do
    uri ← lift (as_uri h c.workspace file_path)
    notify (did_close uri)

  abbrev read_tracked : String → Option Text → World h → Result Error Text
  read_tracked uri (some content) w = ok content
  read_tracked uri none w = h.read_text (from_uri h c.workspace uri false) "utf-8" w.fs

  unfoldable pub read_file : h.FilePath → Action Text
  unfolding ◌>>=◌
  read_file file_path = do
    uri ← lift (as_uri h c.workspace file_path)
    λ w. (read_tracked uri (get_content uri w.doc) w, w)

  sync_written : String → Text → Option ℕ → Action (Unit {0})
  sync_written uri content none = pure tt
  sync_written uri content (some version) =
      notify_text_document_changed (from_uri h c.workspace uri false) content version

  -- `self._doc.update_content(uri, content)` on the client's manager
  update_doc : String → Text → Action (Option ℕ)
  update_doc uri content w =
      let r = update_content uri content w.doc in (ok r.0, record w { doc = r.1 })

  unfoldable pub write_file : String → Text → Action (Unit {0})
  unfolding on_disk update_doc sync_written notify_text_document_changed ◌>>=◌
  write_file uri content = do
    encoding ← gets (λ w. get_encoding uri "utf-8" w.doc)
    on_disk (h.write_text (from_local_uri h uri) content encoding)
    version ← update_doc uri content
    sync_written uri content version

  -- `read_file` inside `DocumentStateManager.open`: the bytes from disk and their decoding
  abbrev decode : Option (Text × String) → Result Error (Text × String)
  decode none = err value_error
  decode (some best) = ok best

  unfoldable pub reader : h.Fs → Reader
  reader fs uri = elim (h.read_bytes (from_local_uri h uri) fs) [
    | ok content_bytes ↦ decode (h.best_match content_bytes)
    | err e ↦ err e
  ]

  -- `self._doc.open(file_uris)` and `self._doc.close(file_uris)` on the client's manager
  unfoldable pub open_in_doc : List String → Action (Dict DocumentState)
  open_in_doc uris w = let r = open_docs (reader w.fs) uris w.doc in (r.0, record w { doc = r.1 })

  unfoldable pub close_in_doc : List String → Action (List String)
  close_in_doc uris w = let r = close_docs uris w.doc in (ok r.1, record w { doc = r.0 })

  -- The task group of `didOpen`s, and that of `didClose`s.
  unfoldable pub notify_opened : Dict DocumentState → Action (Unit {0})
  unfolding notify_text_document_opened ◌>>=◌
  notify_opened [] = pure tt
  notify_opened ((uri, state) ∷ rest) = do
    notify_text_document_opened (from_local_uri h uri) state.content
    notify_opened rest

  unfoldable pub notify_closed : List String → Action (Unit {0})
  unfolding notify_text_document_closed ◌>>=◌
  notify_closed [] = pure tt
  notify_closed (uri ∷ rest) = do
    notify_text_document_closed (from_local_uri h uri)
    notify_closed rest

  unfoldable pub as_uris : List h.FilePath → Result Error (List String)
  as_uris [] = ok []
  as_uris (p ∷ ps) = elim (as_uri h c.workspace p) [
    | err e ↦ err e
    | ok uri ↦ elim (as_uris ps) [ err e ↦ err e | ok uris ↦ ok (uri ∷ uris) ]
  ]

  -- `try: yield finally: last`: the last part runs whatever the first did, and what it raises
  -- takes the place of the first part's outcome.
  abbrev pub after : {A : Type 0} → Result Error A → Result Error (Unit {0}) → Result Error A
  after r (ok u) = r
  after r (err e) = err e

  unfoldable pub finally : {A : Type 0} → Action A → Action (Unit {0}) → Action A
  finally body last w = let r = body w in let l = last r.1 in (after r.0 l.0, l.1)

  unfoldable pub with_open : {A : Type 0} → List String → Action A → Action A
  unfolding open_in_doc close_in_doc notify_opened notify_closed finally ◌>>=◌
  with_open [] body = body
  with_open (uri ∷ uris) body = do
    new_docs ← open_in_doc (uri ∷ uris)
    notify_opened new_docs
    finally body (do closed_uris ← close_in_doc (uri ∷ uris); notify_closed closed_uris)

  -- `async with self.open_files(*file_paths): body`
  unfoldable pub open_files : {A : Type 0} → List h.FilePath → Action A → Action A
  unfolding with_open as_uris ◌>>=◌
  open_files file_paths body =
      if c.sync_file
      then (do file_uris ← lift (as_uris file_paths); with_open file_uris body)
      else body
