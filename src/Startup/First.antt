-- ===== src/Startup/First.antt =====
-- Which server is used.
use mathlib.Core.List.{append_assoc, append-nil}
use lsp_client.Base.{
  ℕ, ◌≡◌, refl, sym, ap, ◌∙◌, Bool, Option, none, some, List, [], ◌∷◌, ◌++◌, arith,
}
use lsp_client.Startup.{
  Candidate, ServerArg, iter_candidate_servers, Run, starts, runtime_error, other_error, Startup,
  started, all_failed, raised, try_servers, run_server,
}

-- The candidates of a list fail with these errors, in this order.
abbrev pub FailWith : (Candidate → Run) → List Candidate → List ℕ → Type 0
FailWith run [] [] = Unit
FailWith run (c ∷ cs) (e ∷ es) = (run c ≡ runtime_error e) × FailWith run cs es
FailWith run _ _ = ⊥

try_servers-failed :
    (run : Candidate → Run) (cs ds : List Candidate) (es errors : List ℕ)
    → FailWith run cs es
    → try_servers run (cs ++ ds) errors ≡ try_servers run ds (errors ++ es)
unfolding try_servers
try_servers-failed run [] ds [] errors f = ap (try_servers run ds) (sym (append-nil errors))
try_servers-failed run [] ds (e ∷ es) errors f = elim f [ ]
try_servers-failed run (c ∷ cs) ds [] errors f = elim f [ ]
try_servers-failed run (c ∷ cs) ds (e ∷ es) errors f = rw f.0 (
    try_servers-failed run cs ds es (errors ++ e ∷ []) f.1
    ∙ ap (try_servers run ds) (append_assoc errors (e ∷ []) es))

-- What running a candidate settles, unless it fails to start.
abbrev pub settled : Candidate → Run → Option Startup
settled c starts = some (started c)
settled c (runtime_error e) = none
settled c (other_error e) = some (raised e)

-- The first candidate that does not fail to start decides, whatever the later ones would do: the
-- session runs on it, or what it raised is raised.
pub run_server-first :
    (run : Candidate → Run) (arg : ServerArg) (available enable_container : Bool)
    (before after : List Candidate) (c : Candidate) (errors : List ℕ) (r : Startup)
    → iter_candidate_servers arg available enable_container ≡ before ++ c ∷ after
    → FailWith run before errors
    → settled c (run c) ≡ some r
    → run_server run arg available enable_container ≡ r
unfolding run_server try_servers
run_server-first run arg available enabled before after c errors r split failed done =
    ap (λ l. try_servers run l []) split
    ∙ try_servers-failed run before (c ∷ after) errors [] failed
    ∙ here (run c) refl done
  where
    here : (o : Run) → run c ≡ o → settled c o ≡ some r → try_servers run (c ∷ after) errors ≡ r
    here starts e f = ground arith
    here (runtime_error x) e f = cc
    here (other_error x) e f = ground arith

-- If every candidate fails to start, all their errors are raised together, in the order in which
-- the candidates were tried.
pub run_server-all_failed :
    (run : Candidate → Run) (arg : ServerArg) (available enable_container : Bool) (errors : List ℕ)
    → FailWith run (iter_candidate_servers arg available enable_container) errors
    → run_server run arg available enable_container ≡ all_failed errors
unfolding run_server
run_server-all_failed run arg available enabled errors failed =
    let l = iter_candidate_servers arg available enabled in
    ap (λ k. try_servers run k []) (sym (append-nil l))
    ∙ try_servers-failed run l [] errors [] failed
    ∙ unfold try_servers in refl
