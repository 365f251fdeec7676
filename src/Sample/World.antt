-- ===== src/Sample/World.antt =====
-- A workspace with the root "/w", and one open file in it.
use lsp_client.Host.{from_local_uri}
use lsp_client.Workspace.{as_uri}
use lsp_client.Base.{refl, true, [], ◌∷◌, arith}
use lsp_client.Base.Int.{pos}
use lsp_client.Base.Dict.{lookup, insert}
use lsp_client.Sample.{memory_host}
use lsp_client.Workspace.{workspace_root_dir}
use lsp_client.Document.Counts.{occ}
use lsp_client.Document.Holders.{Holds}
use lsp_client.Client.{Settings, World, did_open}
use lsp_client.Client.Mirror.{IsStable, Mirrors, replay}

abbrev pub settings : Settings
settings = record {
  workspace = (workspace_root_dir, record { uri = "/w"; name = "root" }) ∷ [];
  sync_file = true;
  delivers = λ ns n. true;
  language_id = "python";
}

abbrev pub world : World memory_host
world = record {
  doc = record {
    states = ("/w/a", record { content = 97 ∷ []; version = 0; encoding = "utf-8" }) ∷ [];
    ref_counts = ("/w/a", pos 1) ∷ [];
  };
  fs = ("/w/a", 97 ∷ []) ∷ [];
  sent = did_open "/w/a" "python" 0 (97 ∷ []) ∷ [];
}

pub a-IsStable : IsStable memory_host settings "/w/a"
unfolding as_uri from_local_uri
a-IsStable = refl

pub world-Mirrors : Mirrors world
unfolding replay insert lookup
world-Mirrors uri = ground arith

pub world-Holds : Holds world.doc ("/w/a" ∷ [])
unfolding occ lookup
world-Holds = record { counts = λ u. ground arith; states = λ u. ground arith }
