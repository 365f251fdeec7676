-- ===== src/Container/Workdir.antt =====
-- Where the server works inside the container, and what it finds there.
use lsp_client.Base.{
  ◌≡◌, All, subst, refl, ap, ◌∙◌, String, Option, none, some, List, [], ◌∷◌, ◌++◌, map,
  if◌then◌else◌, str_eq, arith, Bool-cases, inl, inr, false,
}
use Prim.Native.String.{◌++◌ as append_text}
use lsp_client.Base.Exec.{ok}
use lsp_client.Host.{Host}
use lsp_client.Workspace.{Workspace, WorkspaceFolder, to_folders, path}
use lsp_client.Container.{
  Mount, mount_point, ContainerServer, bind_from_path, format_mount, mount_args, folder_mounts,
  get_effective_workdir, name_args, format_args, join_commas,
}

-- What the command for a container makes of options with a value each: where the program works,
-- what is mounted, and what is behind the options.
pub record Run : Type 0 where
  pub workdir : Option String
  pub mounts : List String
  pub rest : List String

abbrev pub add_option : String → String → List String → Run → Run
add_option key value tail r =
    if str_eq key "--workdir"
    then record r { workdir = some value }
    else if str_eq key "--mount"
    then record r { mounts = value ∷ r.mounts }
    else if str_eq key "--name"
    then r
    else record { workdir = none; mounts = []; rest = key ∷ value ∷ tail }

unfoldable pub read_options : List String → Run
read_options [] = record { workdir = none; mounts = []; rest = [] }
read_options (x ∷ []) = record { workdir = none; mounts = []; rest = x ∷ [] }
read_options (key ∷ value ∷ tail) = add_option key value tail (read_options tail)

map-last {ℓ} :
    {A : Type ℓ} (f : A → String) (xs : List A) (y : A) {z : String}
    → f y ≡ z
    → map f (xs ++ y ∷ []) ++ [] ≡ map f xs ++ z ∷ []
map-last f [] y e = ap (λ z. z ∷ []) e
map-last f (x ∷ xs) y e = ap (λ l. f x ∷ l) (map-last f xs y e)

module _ (h : Host) (path_text posix_text : h.FilePath → String) where
  -- The text of a mount of a directory at a target.
  abbrev pub mounted : String → String → String
  mounted source target =
      join_commas ("type=bind" ∷ append_text "source=" source ∷ append_text "target=" target ∷ [])

  read_options-mounts :
      (ms : List (Mount h path_text posix_text)) (tail : List String)
      → read_options (mount_args h path_text posix_text ms ++ tail) ≡ record (read_options tail) {
        mounts = map (format_mount h path_text posix_text) ms ++ (read_options tail).mounts;
      }
  unfolding read_options mount_args
  read_options-mounts [] tail = refl
  read_options-mounts (m ∷ ms) tail =
      ap
        (add_option "--mount" (format_mount h path_text posix_text m)
          (mount_args h path_text posix_text ms ++ tail))
        (read_options-mounts ms tail)

  format_mount-folder :
      (p : h.FilePath)
      → str_eq (path_text (h.resolve p)) "" ≡ false
      → format_mount h path_text posix_text (mount_point (bind_from_path h path_text posix_text p))
        ≡ mounted (path_text (h.resolve p)) (posix_text (h.resolve p))
  unfolding format_mount bind_from_path
  format_mount-folder p n = rw n refl

  -- The options behind the name.
  abbrev named : String → List (Mount h path_text posix_text) → String → List String
  named workdir ms image =
      "--workdir" ∷ workdir ∷ (mount_args h path_text posix_text ms ++ image ∷ [])

  abbrev run : String → List (Mount h path_text posix_text) → String → Run
  run workdir ms image = record {
    workdir = some workdir;
    mounts = map (format_mount h path_text posix_text) ms ++ [];
    rest = image ∷ [];
  }

  read_options-named :
      (workdir : String) (ms : List (Mount h path_text posix_text)) (image : String)
      → read_options (named workdir ms image) ≡ run workdir ms image
  unfolding read_options
  read_options-named workdir ms image =
      ap (add_option "--workdir" workdir (mount_args h path_text posix_text ms ++ image ∷ []))
        (read_options-mounts ms (image ∷ []))

  read_options-name_args :
      (name : Option String) (workdir : String) (ms : List (Mount h path_text posix_text))
      (image : String)
      → read_options (name_args h path_text posix_text name ++ named workdir ms image)
        ≡ run workdir ms image
  unfolding read_options
  read_options-name_args none workdir ms image = read_options-named workdir ms image
  read_options-name_args (some n) workdir ms image = elim (Bool-cases (str_eq n "")) [
    | inl empty ↦ rw empty (read_options-named workdir ms image)
    | inr given ↦ rw given (read_options-named workdir ms image)
  ]

  -- The path of a folder is not empty.
  abbrev pub IsNamed : WorkspaceFolder → Type 0
  IsNamed f = str_eq (path_text (h.resolve (path h f))) "" ≡ false

  -- A server without a working directory and arguments of its own, for which arguments are made,
  -- has a workspace of one folder. The command that they are of is `run`, and in it the program
  -- works in the directory of that folder, which is mounted there behind the server's own mounts;
  -- behind the options stands the image. The paths of the folders are not empty.
  pub format_args-workdir :
      (s : ContainerServer h path_text posix_text) (ws : Workspace) (args : List String)
      → s.workdir ≡ none
      → s.extra_container_args ≡ []
      → All IsNamed (to_folders ws)
      → format_args h path_text posix_text s ws ≡ ok args
      → (folder : WorkspaceFolder) × (options : List String) × (to_folders ws ≡ folder ∷ [])
        × (args ≡ "run" ∷ "-i" ∷ "--rm" ∷ options)
        × (read_options options ≡ record {
          workdir = some (posix_text (h.resolve (path h folder)));
          mounts =
              map (format_mount h path_text posix_text) s.mounts
              ++ mounted
                  (path_text (h.resolve (path h folder)))
                  (posix_text (h.resolve (path h folder)))
                ∷ [];
          rest = s.image ∷ [];
        })
  unfolding format_args get_effective_workdir folder_mounts bind_from_path
  format_args-workdir s ws args own plain there made = go (to_folders ws) refl
    where
      go :
          (fs : List WorkspaceFolder)
          → to_folders ws ≡ fs
          → (folder : WorkspaceFolder) × (options : List String) × (to_folders ws ≡ folder ∷ [])
            × (args ≡ "run" ∷ "-i" ∷ "--rm" ∷ options)
            × (read_options options ≡ record {
              workdir = some (posix_text (h.resolve (path h folder)));
              mounts =
                  map (format_mount h path_text posix_text) s.mounts
                  ++ mounted
                      (path_text (h.resolve (path h folder)))
                      (posix_text (h.resolve (path h folder)))
                    ∷ [];
              rest = s.image ∷ [];
            })
      go [] e = absurd (ground (arith, own, e, made))
      go (f ∷ g ∷ fs) e = absurd (ground (arith, own, e, made))
      go (f ∷ []) e =
          let p = path h f in
          let ms = s.mounts ++ mount_point (bind_from_path h path_text posix_text p) ∷ [] in
          (
            f,
            name_args h path_text posix_text s.container_name
                ++ named (posix_text (h.resolve p)) ms s.image,
            e,
            ground (arith, own, e, made, plain),
            read_options-name_args s.container_name (posix_text (h.resolve p)) ms s.image
                ∙ ap
                    (λ (l : List String). record {
                      workdir = some (posix_text (h.resolve p));
                      mounts = l;
                      rest = s.image ∷ [];
                    })
                    (map-last (format_mount h path_text posix_text) s.mounts
                      (mount_point (bind_from_path h path_text posix_text p))
                      (format_mount-folder p (subst (All IsNamed) e there).0)),
          )
