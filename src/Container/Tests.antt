-- ===== src/Container/Tests.antt =====
-- A container for a workspace of one folder.
use lsp_client.Host.{from_local_uri}
use lsp_client.Container.{format_mount}
use lsp_client.Base.{◌≡◌, refl, All, some, String, none, List, [], ◌∷◌}
use lsp_client.Base.Exec.{ok}
use lsp_client.Sample.{memory_host, join_slashes}
use lsp_client.Workspace.{Workspace, WorkspaceFolder, to_folders, path}
use lsp_client.Container.{ContainerServer, oct, mount_text, bind_from_path, format_args}
use lsp_client.Container.Workdir.{read_options, mounted, IsNamed, format_args-workdir}

abbrev folders : Workspace
folders = ("x", record { uri = "/home/x"; name = "x" }) ∷ []

mode_text : oct 1023 ≡ "0o1777"
unfolding oct
mode_text = refl

abbrev server : ContainerServer memory_host join_slashes join_slashes
server = record {
  image = "pyright";
  workdir = none;
  mounts = mount_text "type=tmpfs,target=/tmp" ∷ [];
  container_name = none;
  extra_container_args = [];
}

abbrev arguments : List String
arguments =
    "run" ∷ "-i" ∷ "--rm" ∷ "--workdir" ∷ "/home/x" ∷ "--mount" ∷ "type=tmpfs,target=/tmp"
    ∷ "--mount" ∷ "type=bind,source=/home/x,target=/home/x" ∷ "pyright" ∷ []

made : format_args memory_host join_slashes join_slashes server folders ≡ ok arguments
unfolding format_args to_folders format_mount bind_from_path from_local_uri
made = refl

x-IsNamed : All (IsNamed memory_host join_slashes join_slashes) (to_folders folders)
unfolding to_folders from_local_uri
x-IsNamed = (refl, tt)

format_args-workdir_example :
    (folder : WorkspaceFolder) × (options : List String) × (to_folders folders ≡ folder ∷ [])
    × (arguments ≡ "run" ∷ "-i" ∷ "--rm" ∷ options)
    × (read_options options ≡ record {
      workdir = some (join_slashes (memory_host.resolve (path memory_host folder)));
      mounts =
          "type=tmpfs,target=/tmp"
          ∷ mounted memory_host join_slashes join_slashes
              (join_slashes (memory_host.resolve (path memory_host folder)))
              (join_slashes (memory_host.resolve (path memory_host folder)))
          ∷ [];
      rest = "pyright" ∷ [];
    })
unfolding format_mount
format_args-workdir_example =
    format_args-workdir memory_host join_slashes join_slashes server folders arguments refl refl
      x-IsNamed made
