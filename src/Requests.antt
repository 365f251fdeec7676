-- ===== src/Requests.antt =====
-- capability/request/ and capability/diagnostic/: the methods that ask the server about a file. Each opens the file
-- around its calls. What the server answers to a call, converted, and what happens to the client meanwhile, is a parameter.
pub mod Places
pub mod Hierarchy
pub mod Rename
pub mod Actions
pub mod Items
pub mod Signatures
pub mod Files
pub mod Asked
pub mod Collected
pub mod Converted
pub mod Applied
pub mod Tests
use lsp_client.Base.{String, List, [], ◌∷◌, Option, none, some}
use lsp_client.Base.Exec.{Result, ok, err, lift, ◌>>=◌, pure}
use lsp_client.Host.{Host}
use lsp_client.Workspace.{as_uri}
use lsp_client.Lsp.{Position}
use lsp_client.Client.{Settings, Action, open_files}

-- `text_document` and `position` of the parameters
pub record TextDocumentPosition : Type 0 where
  pub uri : String
  pub position : Position

module _ (h : Host) (c : Settings) {A : Type 0} where
  -- `async with self.open_files(file_path): … self.as_uri(file_path) …`
  unfoldable pub on_file : h.FilePath → (String → Action h c A) → Action h c A
  unfolding open_files ◌>>=◌
  on_file file_path ask =
      open_files h c (file_path ∷ []) (do uri ← lift (as_uri h c.workspace file_path); ask uri)

  unfoldable pub at_position :
      (TextDocumentPosition → Action h c A) → h.FilePath → Position → Action h c A
  unfolding on_file
  at_position ask file_path position =
      on_file file_path (λ uri. ask (record { uri = uri; position = position }))

-- `for item in items: tg.soonify(request)(item)` and the values of the tasks, in the order of the
-- items. The tasks run one after the other here.
module _ (h : Host) (c : Settings) {A B : Type 0} where
  unfoldable pub each : (A → Action h c B) → List A → Action h c (List B)
  unfolding ◌>>=◌
  each request [] = pure []
  each request (item ∷ items) = do
    value ← request item
    values ← each request items
    pure (value ∷ values)
