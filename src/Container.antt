-- ===== src/Container.antt =====
-- server/container.py: the mounts of a container, its working directory and the arguments of the
-- command that runs it. The text of a path, and its form with slashes, are parameters.
pub mod Workdir
pub mod Tests
use Prim.Native.String.{◌++◌ as append_text}
use lsp_client.Base.{
  ℕ, zero, suc, String, Bool, true, false, not, Option, none, some, List, [], ◌∷◌, ◌++◌,
  if◌then◌else◌, str_eq, ◌/◌, ◌%◌, ltb, map, get_or,
}
use lsp_client.Base.Exec.{Result, ok, err}
use lsp_client.Host.{Host, Error, value_error}
use lsp_client.Workspace.{Workspace, WorkspaceFolder, to_folders, path}

pub record MountBase : Type 0 where
  pub kind : String
  pub target : String
  pub source : Option String
  pub readonly : Bool

-- A field that is `None` or, where the code asks for its truth, empty is left out.
pub data MountPoint : Type 0 where
  -- propagation
  bind_mount : MountBase → Option String → MountPoint
  -- driver, subpath, nocopy, options
  volume_mount : MountBase → Option String → Option String → Bool → List String → MountPoint
  -- size, mode
  tmpfs_mount : MountBase → Option ℕ → Option ℕ → MountPoint

-- `mount.target`
abbrev pub target_of : MountPoint → String
target_of (bind_mount b propagation) = b.target
target_of (volume_mount b driver subpath nocopy options) = b.target
target_of (tmpfs_mount b size mode) = b.target

abbrev digit : ℕ → String
digit n = get_or ("0" ∷ "1" ∷ "2" ∷ "3" ∷ "4" ∷ "5" ∷ "6" ∷ "7" ∷ "8" ∷ "9" ∷ []) n ""

-- The digits of a number to a base of at most ten; as many rounds as the number are enough.
unfoldable pub digits : ℕ → ℕ → ℕ → String
digits base zero n = digit n
digits base (suc fuel) n =
    let more = append_text (digits base fuel (n / base)) (digit (n % base)) in
    if ltb n base then digit n else more

-- `str(n)` and `oct(n)`
unfoldable pub str : ℕ → String
unfolding digits
str n = digits 10 n n

unfoldable pub oct : ℕ → String
unfolding digits
oct n = append_text "0o" (digits 8 n n)

-- `if value: parts.append(f"{key}={value}")`
abbrev pub truthy_part : String → Option String → List String
truthy_part key none = []
truthy_part key (some v) = if str_eq v "" then [] else append_text key v ∷ []

-- `if value is not None: parts.append(f"{key}={format(value)}")`
abbrev pub given_part : (ℕ → String) → String → Option ℕ → List String
given_part format key none = []
given_part format key (some v) = append_text key (format v) ∷ []

unfoldable pub base_parts : MountBase → List String
base_parts b =
    (append_text "type=" b.kind ∷ [])
    ++ (truthy_part "source=" b.source
        ++ ((append_text "target=" b.target ∷ []) ++ (if b.readonly then "readonly" ∷ [] else [])))

unfoldable pub mount_parts : MountPoint → List String
unfolding base_parts str oct
mount_parts (bind_mount b propagation) = base_parts b ++ truthy_part "bind-propagation=" propagation
mount_parts (volume_mount b driver subpath nocopy options) =
    base_parts b
    ++ (truthy_part "volume-driver=" driver
        ++ (truthy_part "volume-subpath=" subpath
            ++ ((if nocopy then "volume-nocopy" ∷ [] else [])
                ++ map (append_text "volume-opt=") options)))
mount_parts (tmpfs_mount b size mode) =
    base_parts b ++ (given_part str "tmpfs-size=" size ++ given_part oct "tmpfs-mode=" mode)

-- `",".join(parts)`
unfoldable pub join_commas : List String → String
join_commas [] = ""
join_commas (s ∷ []) = s
join_commas (s ∷ t ∷ ts) = append_text s (append_text "," (join_commas (t ∷ ts)))

module _ (h : Host) (path_text posix_text : h.FilePath → String) where
  pub data Mount : Type 0 where
    mount_point : MountPoint → Mount
    mount_text : String → Mount
    mount_path : h.FilePath → Mount

  pub record ContainerServer : Type 0 where
    pub image : String
    pub workdir : Option String
    pub mounts : List Mount
    pub container_name : Option String
    pub extra_container_args : List String

  -- `BindMount.from_path`, with the target that it gives a path by default
  unfoldable pub bind_from_path : h.FilePath → MountPoint
  bind_from_path p =
      bind_mount
        (record {
          kind = "bind";
          target = posix_text (h.resolve p);
          source = some (path_text (h.resolve p));
          readonly = false;
        })
        none

  unfoldable pub format_mount : Mount → String
  unfolding mount_parts join_commas bind_from_path
  format_mount (mount_point m) = join_commas (mount_parts m)
  format_mount (mount_text s) = s
  format_mount (mount_path p) = join_commas (mount_parts (bind_from_path p))

  abbrev pub only_folder : List WorkspaceFolder → Result Error String
  only_folder (folder ∷ []) = ok (target_of (bind_from_path (path h folder)))
  only_folder _ = err value_error

  abbrev pub workdir_or : Option String → Result Error String → Result Error String
  workdir_or none other = other
  workdir_or (some w) other = if str_eq w "" then other else ok w

  unfoldable pub get_effective_workdir : ContainerServer → Workspace → Result Error String
  get_effective_workdir s ws = workdir_or s.workdir (only_folder (to_folders ws))

  unfoldable pub mount_args : List Mount → List String
  mount_args [] = []
  mount_args (m ∷ ms) = "--mount" ∷ format_mount m ∷ mount_args ms

  unfoldable pub folder_mounts : List WorkspaceFolder → List Mount
  folder_mounts [] = []
  folder_mounts (f ∷ fs) = mount_point (bind_from_path (path h f)) ∷ folder_mounts fs

  abbrev pub name_args : Option String → List String
  name_args none = []
  name_args (some n) = if str_eq n "" then [] else "--name" ∷ n ∷ []

  unfoldable pub format_args : ContainerServer → Workspace → Result Error (List String)
  unfolding mount_args folder_mounts get_effective_workdir
  format_args s ws = elim (get_effective_workdir s ws) [
    | err e ↦ err e
    | ok workdir ↦ ok (
        ("run" ∷ "-i" ∷ "--rm" ∷ [])
        ++ (name_args s.container_name
            ++ (("--workdir" ∷ workdir ∷ [])
                ++ (mount_args (s.mounts ++ folder_mounts (to_folders ws))
                    ++ (s.extra_container_args ++ s.image ∷ [])))))
  ]
