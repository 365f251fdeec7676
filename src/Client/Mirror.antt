-- ===== src/Client/Mirror.antt =====
-- What the server knows of the open documents, from the notifications that it was sent.
use lsp_client.Base.{
  ℕ, true, ◌≡◌, refl, String, Option, none, some, List, [], ◌∷◌, ◌++◌, if◌then◌else◌, arith, eq_iff,
  str_eq,
}
use lsp_client.Base.Dict.{Dict, lookup, insert, remove, lookup-insert}
use lsp_client.Base.Exec.{ok, err}
use mathlib.Core.List.{append-nil}
use lsp_client.Host.{Host, Text, Error, from_local_uri}
use lsp_client.Workspace.{as_uri, from_uri}
use lsp_client.Document.{DocumentState, get_encoding, update_content, get_version}
use lsp_client.Document.Updates.{update_content_lem}
use lsp_client.Client.{Notification, did_open, did_change, did_close, Settings, World, write_file}

-- A document on the server's side: its version and text.
abbrev pub ServerDocs : Type 0
ServerDocs = Dict (ℕ × Text)

abbrev pub receive : Notification → ServerDocs → ServerDocs
receive (did_open uri language version text) d = insert uri (version, text) d
receive (did_change uri version text) d = insert uri (version, text) d
receive (did_close uri) d = remove uri d

unfoldable pub replay : List Notification → ServerDocs → ServerDocs
replay [] d = d
replay (n ∷ ns) d = replay ns (receive n d)

pub replay-append :
    (ns : List Notification) (n : Notification) (d : ServerDocs)
    → replay (ns ++ n ∷ []) d ≡ receive n (replay ns d)
unfolding replay
replay-append [] n d = refl
replay-append (m ∷ ns) n d = replay-append ns n (receive m d)

abbrev pub shown : Option DocumentState → Option (ℕ × Text)
shown none = none
shown (some s) = some (s.version, s.content)

-- The server has each open document, at its version and text, and no other.
abbrev pub Mirrors : {h : Host} → World h → Type 0
Mirrors w = (uri : String) → lookup uri (replay w.sent []) ≡ shown (lookup uri w.doc.states)

-- The URI names a file of the workspace, and is the one that the client writes for its path.
abbrev pub IsStable : (h : Host) → Settings → String → Type 0
IsStable h c uri = as_uri h c.workspace (from_local_uri h uri) ≡ ok uri

-- The notification for a new version of a tracked document.
abbrev pub told : String → Text → Option ℕ → List Notification
told uri content none = []
told uri content (some version) = did_change uri version content ∷ []

abbrev version_or : Option ℕ → ℕ
version_or none = 0
version_or (some v) = v

replay-told :
    (ns : List Notification) (uri u : String) (content : Text) (o : Option ℕ)
    → lookup u (replay (ns ++ told uri content o) []) ≡ (elim o [
      | none ↦ lookup u (replay ns [])
      | some v ↦ if str_eq uri u then some (v, content) else lookup u (replay ns [])
    ])
replay-told ns uri u content none = rw (append-nil ns)
replay-told ns uri u content (some v) =
    rw (replay-append ns (did_change uri v content) [])
      (lookup-insert uri u (v, content) (replay ns []))

module _ (h : Host) (c : Settings) (uri : String) (content : Text) (w : World h) where
  -- A notification of the text is sent in time.
  abbrev pub Delivered : Type 0
  Delivered = (version : ℕ) → c.delivers w.sent (did_change uri version content) ≡ true

  -- What `write_file` has done when the disk took the text: the text and the next version of a
  -- tracked document are stored, and the server is told both.
  pub write_file-ok :
      (fs' : h.Fs)
      → IsStable h c uri
      → h.write_text (from_local_uri h uri) content (get_encoding uri "utf-8" w.doc) w.fs
        ≡ (ok tt, fs')
      → Delivered
      → write_file h c uri content w ≡ (
        ok tt,
        record {
          doc = (update_content uri content w.doc).1;
          fs = fs';
          sent = w.sent ++ told uri content (update_content uri content w.doc).0;
        },
      )
  unfolding write_file from_uri
  write_file-ok fs' stable written delivered =
      ground (arith, append-nil w.sent, delivered (version_or (update_content uri content w.doc).0))

  -- When the disk refuses the text nothing else has changed.
  pub write_file-err :
      (fs' : h.Fs) (e : Error)
      → h.write_text (from_local_uri h uri) content (get_encoding uri "utf-8" w.doc) w.fs
        ≡ (err e, fs')
      → write_file h c uri content w ≡ (err e, record w { fs = fs' })
  unfolding write_file
  write_file-err fs' e refused = ground arith

  -- Writing a file without error, at a URI that the client writes for its path, keeps the
  -- server's documents equal to the client's if a notification of the text is sent in time.
  pub write_file-Mirrors :
      (fs' : h.Fs)
      → IsStable h c uri
      → h.write_text (from_local_uri h uri) content (get_encoding uri "utf-8" w.doc) w.fs
        ≡ (ok tt, fs')
      → Delivered
      → Mirrors w
      → Mirrors (write_file h c uri content w).1
  unfolding get_version
  write_file-Mirrors fs' stable written delivered m =
      rw (write_file-ok fs' stable written delivered) λ u. ground (
        arith,
        m u,
        m uri,
        (update_content_lem uri content w.doc).0 u,
        (update_content_lem uri content w.doc).0 uri,
        (update_content_lem uri content w.doc).2,
        replay-told w.sent uri u content (update_content uri content w.doc).0,
        eq_iff uri u,
      )
