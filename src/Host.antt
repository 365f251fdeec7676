-- ===== src/Host.antt =====
-- What the client calls outside the repository: `pathlib`, `urllib`, the file system behind
-- `anyio.Path` and `shutil`, and `charset_normalizer`. All of it is a parameter of the model.
use lsp_client.Base.{ℕ, String, Bool, Option, List}
use lsp_client.Base.Exec.{Result, Exec}

-- Text is a list of code points, a file's bytes a list of numbers.
abbrev pub Text : Type 0
Text = List ℕ

-- The message of an `EditApplicationError`, which names the URI that comes with it.
pub data Reason : Type 0 where
  not_open create_exists source_missing target_exists delete_missing not_empty : Reason

-- exception.py, and the exceptions of the Python library that pass through.
pub data Error : Type 0 where
  edit_application : Reason → String → Error
  version_mismatch : String → ℕ → ℕ → Error
  os_error value_error : Error
  runtime_error key_error index_error : Error
  -- `fail_after`
  timeout_error : Error

pub record Host : Type 1 where
  -- `Path`, and the calls on a URI that `from_local_uri` chains
  pub FilePath : Type 0
  pub url_path : String → String
  pub url2pathname : String → String
  pub unquote : String → String
  pub path : String → FilePath
  pub parent : FilePath → FilePath
  pub name : FilePath → String
  pub is_absolute : FilePath → Bool
  pub is_relative_to : FilePath → FilePath → Bool
  pub relative_to : FilePath → FilePath → FilePath
  pub join : FilePath → FilePath → FilePath
  pub parts : FilePath → List String
  pub from_parts : List String → FilePath
  pub resolve : FilePath → FilePath
  pub as_file_uri : FilePath → String
  -- the file system
  pub Fs : Type 0
  pub exists : FilePath → Fs → Bool
  pub is_dir : FilePath → Fs → Bool
  pub is_file : FilePath → Fs → Bool
  pub read_bytes : FilePath → Fs → Result Error (List ℕ)
  pub read_text : FilePath → String → Fs → Result Error Text
  pub write_text : FilePath → Text → String → Exec Fs Error (Unit {0})
  pub mkdir : FilePath → Exec Fs Error (Unit {0})
  pub unlink : FilePath → Exec Fs Error (Unit {0})
  pub rename : FilePath → FilePath → Exec Fs Error (Unit {0})
  pub rmdir : FilePath → Exec Fs Error (Unit {0})
  pub rmtree : FilePath → Exec Fs Error (Unit {0})
  -- `from_bytes(content).best()`: the text and its encoding
  pub best_match : List ℕ → Option (Text × String)

-- utils/uri.py: `Path(unquote(url2pathname(urlparse(uri).path)))`
unfoldable pub from_local_uri : (h : Host) → String → h.FilePath
from_local_uri h uri = h.path (h.unquote (h.url2pathname (h.url_path uri)))
