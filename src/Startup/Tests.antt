-- ===== src/Startup/Tests.antt =====
-- A client told to use a container, which fails; the local server starts.
use lsp_client.Base.{◌≡◌, refl, true, [], ◌∷◌}
use lsp_client.Startup.{
  Candidate, container_server, local_server, custom_server, container_arg, iter_candidate_servers,
  Run, starts, runtime_error, started, run_server,
}
use lsp_client.Startup.First.{run_server-first}

abbrev only_local : Candidate → Run
only_local local_server = starts
only_local container_server = runtime_error 1
only_local (custom_server s) = runtime_error s

run_server-first_example : run_server only_local container_arg true true ≡ started local_server
unfolding iter_candidate_servers
run_server-first_example =
    run_server-first only_local container_arg true true (container_server ∷ [])
      (container_server ∷ local_server ∷ []) local_server (1 ∷ []) (started local_server) refl
      (refl, tt) refl

abbrev nothing_starts : Candidate → Run
nothing_starts c = runtime_error 7
