-- ===== src/Client/Tests.antt =====
-- A session with one file, in memory.
use lsp_client.Workspace.{as_uri}
use lsp_client.Host.{from_local_uri}
use lsp_client.Base.{◌≡◌, refl, String, List, [], ◌∷◌}
use lsp_client.Base.Dict.{insert}
use lsp_client.Base.Exec.{Result, ok}
use lsp_client.Host.{Error}
use lsp_client.Sample.{memory_host}
use lsp_client.Client.{World, write_file, open_files, as_uris}
use lsp_client.Client.Mirror.{Mirrors, write_file-Mirrors}
use lsp_client.Client.Body.{RunsOpen, open_files-RunsOpen}
use lsp_client.Sample.World.{settings, world, a-IsStable, world-Mirrors}

write_file-Mirrors_example : Mirrors (write_file memory_host settings "/w/a" (98 ∷ []) world).1
unfolding from_local_uri
write_file-Mirrors_example =
    write_file-Mirrors memory_host settings "/w/a" (98 ∷ []) world
      (insert "/w/a" (98 ∷ []) world.fs) a-IsStable refl (λ v. refl) world-Mirrors

abbrev body : World memory_host → Result Error (Unit {0}) × World memory_host
body = write_file memory_host settings "/w/a" (98 ∷ [])

abbrev path_a : List String
path_a = "" ∷ "w" ∷ "a" ∷ []

uris_a : as_uris memory_host settings (path_a ∷ []) ≡ ok ("/w/a" ∷ [])
unfolding as_uris as_uri from_local_uri
uris_a = refl

open_files-RunsOpen_example :
    RunsOpen memory_host settings body
      ("/w/a" ∷ [])
      world
      (open_files memory_host settings (path_a ∷ []) body world)
open_files-RunsOpen_example =
    open_files-RunsOpen memory_host settings body (path_a ∷ []) ("/w/a" ∷ []) world refl uris_a
      (a-IsStable, tt) world-Mirrors
