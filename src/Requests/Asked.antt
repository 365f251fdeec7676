-- ===== src/Requests/Asked.antt =====
-- In which state of the client the server is asked about a file.
use lsp_client.Base.{
  ◌≡◌, refl, sym, ◌∙◌, ◌⊎◌, inl, inr, String, Bool, true, false, Option, none, some, [], ◌∷◌,
}
use lsp_client.Base.Exec.{Result, ok, err, continue, lift, pure, ◌>>=◌, ok_injective}
use lsp_client.Host.{Host, Error, timeout_error}
use lsp_client.Workspace.{as_uri}
use lsp_client.Lsp.{Position}
use lsp_client.Client.{Settings, World, Action, as_uris}
use lsp_client.Client.Mirror.{Mirrors, IsStable}
use lsp_client.Client.Body.{Ready, open_files-RunsOpen}
use lsp_client.WorkspaceEdit.{WorkspaceEdit, apply_workspace_edit}
use lsp_client.Requests.{on_file, at_position}
use lsp_client.Requests.Rename.{RenameParams, apply_rename, request_rename}

-- The parameters that `request_rename` sends.
abbrev pub params : String → Position → String → RenameParams
params uri position new_name = record {
  at = record { uri = uri; position = position };
  new_name = new_name;
}

-- What an answer and the outcome say of one another.
abbrev pub Answered :
    (h : Host) (c : Settings) → Bool → Result Error (Option WorkspaceEdit) × World h → Type 0
Answered h c b r =
    ((b ≡ false) × (r.0 ≡ ok none))
    ⊎ ((edit : WorkspaceEdit) × (b ≡ true)
        × (r.0 ≡ ok (some edit))
        × ((apply_workspace_edit h c edit r.1).0 ≡ ok tt))

module _ (h : Host) (c : Settings) (file_path : h.FilePath) (uri : String) (w : World h)
    (on : c.sync_file ≡ true) (e : as_uri h c.workspace file_path ≡ ok uri) (s : IsStable h c uri)
    (m : Mirrors w) where
  as_uris-one : as_uris h c (file_path ∷ []) ≡ ok (uri ∷ [])
  unfolding as_uris
  as_uris-one = rw (as_uris, e) refl

  -- With synchronization on, for a path whose URI the client writes again for it, and a server
  -- that has the client's open documents, a request about a file either raises before the server
  -- is asked, and has then sent nothing, or raises that a notification was not sent in time, or its
  -- outcome is that of asking with the file's URI, where the file's document is open and the server
  -- has the client's documents.
  pub on_file-asks :
      {A : Type 0} (ask : String → Action h c A)
      → ((x : Error) × ((on_file h c file_path ask w).0 ≡ err x)
          × ((on_file h c file_path ask w).1.sent ≡ w.sent))
        ⊎ (((on_file h c file_path ask w).0 ≡ err timeout_error)
            ⊎ ((v : World h) × Ready h c (uri ∷ []) v
                × ((on_file h c file_path ask w).0 ≡ (ask uri v).0)))
  unfolding on_file ◌>>=◌ lift
  on_file-asks ask =
      elim (open_files-RunsOpen h c (continue (as_uri h c.workspace file_path) ask) (file_path ∷ [])
        (uri ∷ []) w on as_uris-one (s, tt) m) [
          | inl raised ↦ inl raised
          | inr (inl late) ↦ inr (inl late)
          | inr (inr (v, r, k)) ↦ inr (inr (v, r, k ∙ rw e refl))
        ]

  module _ (ask : RenameParams → Action h c (Option WorkspaceEdit)) (position : Position)
      (new_name : String) where
    apply_rename-edit :
        (edit : WorkspaceEdit) (t : World h) (b : Bool)
        → (apply_rename h c ask (some edit) t).0 ≡ ok b
        → (b ≡ true) × ((apply_workspace_edit h c edit t).0 ≡ ok tt)
    unfolding apply_rename ◌>>=◌
    apply_rename-edit edit t b f = go (apply_workspace_edit h c edit t) f
      where
        go :
            (q : Result Error (Unit {0}) × World h)
            → (continue q.0 (λ u. pure true) q.1).0 ≡ ok b
            → (b ≡ true) × (q.0 ≡ ok tt)
        go (ok u, v) g = (sym (ok_injective g), refl)
        go (err x, v) g = absurd (cc)

    answered :
        (b : Bool) (q : Result Error (Option WorkspaceEdit) × World h)
        → (continue q.0 (apply_rename h c ask) q.1).0 ≡ ok b
        → Answered h c b q
    unfolding apply_rename
    answered b (err x, t) f = absurd (cc)
    answered b (ok none, t) f = inl (sym (ok_injective f), refl)
    answered b (ok (some edit), t) f =
        let r = apply_rename-edit edit t b f in inr (edit, r.0, refl, r.1)

    -- With synchronization on, for a path whose URI the client writes again for it, and a server
    -- that has the client's open documents: `request_rename` returns false only if the server
    -- answered that there is nothing to rename, and true only if the server answered with an edit
    -- that was then applied without an error. The server was asked while the document was open and
    -- the server had the client's documents.
    pub request_rename-answers :
        (b : Bool)
        → (request_rename h c ask file_path position new_name w).0 ≡ ok b
        → (v : World h) × Ready h c (uri ∷ []) v
          × Answered h c b (ask (params uri position new_name) v)
    unfolding request_rename at_position ◌>>=◌
    request_rename-answers b k = elim (on_file-asks asking) [
      | inl (x, f, g) ↦ absurd (cc)
      | inr (inl f) ↦ absurd (cc)
      | inr (inr (v, r, f)) ↦ (v, r, answered b (ask (params uri position new_name) v) (sym f ∙ k))
    ]
      where
        asking : String → Action h c Bool
        asking u t =
            let q = ask (params u position new_name) t in continue q.0 (apply_rename h c ask) q.1
