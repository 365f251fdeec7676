-- ===== src/Workspace/Convert.antt =====
-- Going from a URI to a path and back.
use lsp_client.Base.{
  String, true, false, ◌&&◌, not, none, some, [], ◌∷◌, ◌==◌, if◌then◌else◌, length, ◌≡◌, arith,
  eq_iff, eq_refl, Bool-cases, inl, inr,
}
use lsp_client.Base.Dict.{lookup, member}
use lsp_client.Base.Exec.{ok, err}
use lsp_client.Host.{Host, key_error, from_local_uri}
use lsp_client.Workspace.{
  WorkspaceFolder, Workspace, workspace_root_dir, path, in_workspace, as_uri, from_uri, relative_in,
}

-- A folder's name is one part of a relative path: no separator, not empty and not a dot.
abbrev pub IsName : (h : Host) → String → Type 0
IsName h n =
    (h.parts (h.from_parts (n ∷ [])) ≡ n ∷ []) × (h.is_absolute (h.from_parts (n ∷ [])) ≡ false)

-- What the code relies on in `pathlib`.
pub record PathLaws (h : Host) : Type 0 where
  pub join-relative_to :
      (p q : h.FilePath) → h.is_relative_to p q ≡ true → h.join q (h.relative_to p q) ≡ p
  pub relative_to-relative :
      (p q : h.FilePath) → h.is_relative_to p q ≡ true → h.is_absolute (h.relative_to p q) ≡ false
  pub join_name-relative :
      (n : String) (p : h.FilePath)
      → IsName h n
      → h.is_absolute p ≡ false
      → h.is_absolute (h.join (h.from_parts (n ∷ [])) p) ≡ false
  pub parts-join_name :
      (n : String) (p : h.FilePath)
      → IsName h n
      → h.is_absolute p ≡ false
      → h.parts (h.join (h.from_parts (n ∷ [])) p) ≡ n ∷ h.parts p
  pub from_parts-parts : (p : h.FilePath) → h.from_parts (h.parts p) ≡ p

-- The names of a dictionary are distinct, and each is one part of a path.
abbrev pub Distinct : Host → Workspace → Type 0
Distinct h [] = Unit
Distinct h ((name, folder) ∷ ws) = (lookup name ws ≡ none) × IsName h name × Distinct h ws

module _ (h : Host) (laws : PathLaws h) where
  open h use {
    FilePath, is_absolute, is_relative_to, relative_to, join, parts, from_parts, as_file_uri,
  }

  named : String → FilePath → FilePath
  named name p = join (from_parts (name ∷ [])) p

  -- A path in the workspace is written relative to a folder that has the name written.
  relative_in-found :
      (p : FilePath) (ws : Workspace)
      → Distinct h ws
      → in_workspace h p ws ≡ true
      → (name : String) × (folder : WorkspaceFolder) × (lookup name ws ≡ some folder)
        × IsName h name
        × (is_relative_to p (path h folder) ≡ true)
        × (relative_in h p ws ≡ named name (relative_to p (path h folder)))
  unfolding in_workspace relative_in lookup named
  relative_in-found p [] d i = cc
  relative_in-found p ((n, f) ∷ ws) d i = elim (Bool-cases (is_relative_to p (path h f))) [
    | inl here ↦ (n, f, ground (arith, eq_refl n), d.1, here, ground (arith, here))
    | inr there ↦
        let (name, folder, found, is_name, within, written) =
          relative_in-found p ws d.2 (ground (arith, i, there)) in
        (
          name,
          folder,
          ground (arith, found, d.0, eq_iff n name),
          is_name,
          within,
          ground (arith, there, written),
        )
  ]

  -- A URI of a file in a workspace, turned into a relative path and back, is the URI of the same
  -- path; only a workspace whose one folder has another name than that of the root raises. The
  -- names of the folders are distinct and each is one part of a path, and paths keep the laws of
  -- `pathlib`.
  pub as_uri-from_uri :
      (ws : Workspace) (uri : String)
      → Distinct h ws
      → in_workspace h (from_local_uri h uri) ws ≡ true
      → as_uri h ws (from_uri h ws uri true) ≡ (
          if length ws == 1 && not (member workspace_root_dir ws)
          then err key_error
          else ok (as_file_uri (from_local_uri h uri)))
  unfolding as_uri from_uri in_workspace named
  as_uri-from_uri [] uri d i = cc
  as_uri-from_uri ((n, f) ∷ []) uri d i =
      let p : FilePath = from_local_uri h uri in
      let q : FilePath = path h f in
      let within : is_relative_to p q ≡ true = ground (arith, i) in
      let r : FilePath = relative_to p q in
      unfold lookup relative_in in
      ground (
        arith,
        within,
        laws.join-relative_to p q within,
        laws.relative_to-relative p q within,
        laws.join_name-relative n r d.1,
      )
  as_uri-from_uri ((n, f) ∷ (m, g) ∷ ws) uri d i =
      let p : FilePath = from_local_uri h uri in
      let all : Workspace = (n, f) ∷ (m, g) ∷ ws in
      let (name, folder, found, is_name, within, written) = relative_in-found p all d i in
      let q : FilePath = path h folder in
      let r : FilePath = relative_to p q in
      let relative : is_absolute r ≡ false = laws.relative_to-relative p q within in
      ground (
        arith,
        found,
        written,
        relative,
        laws.join-relative_to p q within,
        laws.join_name-relative name r is_name relative,
        laws.parts-join_name name r is_name relative,
        laws.from_parts-parts r,
      )
