-- ===== src/Workspace/Tests.antt =====
-- A workspace of two folders.
use lsp_client.Host.{from_local_uri}
use lsp_client.Workspace.{in_workspace}
use lsp_client.Base.Dict.{lookup}
use lsp_client.Base.{◌≡◌, refl, [], ◌∷◌, true}
use lsp_client.Base.Exec.{ok}
use lsp_client.Sample.{memory_host}
use lsp_client.Sample.Paths.{memory_host-PathLaws}
use lsp_client.Workspace.{Workspace, as_uri, from_uri}
use lsp_client.Workspace.Convert.{as_uri-from_uri}

abbrev folders : Workspace
folders =
    ("x", record { uri = "/x"; name = "x" }) ∷ ("y", record { uri = "/home/y"; name = "y" }) ∷ []

as_uri-from_uri_example :
    as_uri memory_host folders (from_uri memory_host folders "/home/y/a" true) ≡ ok "/home/y/a"
unfolding lookup in_workspace from_local_uri
as_uri-from_uri_example =
    as_uri-from_uri memory_host memory_host-PathLaws folders "/home/y/a"
      (refl, (refl, refl), (refl, (refl, refl), tt)) refl
