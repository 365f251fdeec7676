-- ===== src/Startup.antt =====
-- client/abc.py: the servers that a client tries, in their order, and `run_server` up to the first
-- that starts. What a server does when it is run is a parameter.
pub mod First
pub mod Tests
use lsp_client.Base.{
  ℕ, String, Bool, true, false, Option, none, some, List, [], ◌∷◌, ◌++◌, if◌then◌else◌,
}

pub data Candidate : Type 0 where
  container_server local_server : Candidate
  custom_server : ℕ → Candidate

-- `server` of the client: "container", "local", a server, or nothing
pub data ServerArg : Type 0 where
  container_arg local_arg no_arg : ServerArg
  server_arg : ℕ → ServerArg

abbrev pub chosen : ServerArg → List Candidate
chosen container_arg = container_server ∷ []
chosen local_arg = local_server ∷ []
chosen no_arg = []
chosen (server_arg s) = custom_server s ∷ []

-- With whether the local server's program is found, and whether containers are enabled.
unfoldable pub iter_candidate_servers : ServerArg → Bool → Bool → List Candidate
iter_candidate_servers arg available enable_container =
    chosen arg
    ++ ((if available then local_server ∷ [] else [])
        ++ ((if enable_container then container_server ∷ [] else []) ++ local_server ∷ []))

-- What running a server comes to: it starts, it raises a `ServerRuntimeError`, or it raises
-- another exception.
pub data Run : Type 0 where
  starts : Run
  runtime_error other_error : ℕ → Run

pub data Startup : Type 0 where
  started : Candidate → Startup
  -- the `ExceptionGroup`
  all_failed : List ℕ → Startup
  raised : ℕ → Startup

-- The loop of `run_server`, with the errors so far.
unfoldable pub try_servers : (Candidate → Run) → List Candidate → List ℕ → Startup
try_servers run [] errors = all_failed errors
try_servers run (c ∷ cs) errors = elim (run c) [
  | starts ↦ started c
  | runtime_error e ↦ try_servers run cs (errors ++ e ∷ [])
  | other_error e ↦ raised e
]

unfoldable pub run_server : (Candidate → Run) → ServerArg → Bool → Bool → Startup
unfolding try_servers iter_candidate_servers
run_server run arg available enable_container =
    try_servers run (iter_candidate_servers arg available enable_container) []
