-- ===== src/Local/Tests.antt =====
-- A machine that runs any program, and one that runs none.
use lsp_client.Base.{ℕ, ◌≡◌, refl, Bool, true, false, some, [], ◌∷◌}
use lsp_client.Base.Exec.{ok, err}
use lsp_client.Local.{
  attribute_error, completed, Waited, timed_out, interrupted, cancelled, terminating, absent, Shell,
  Os, Call, LocalServer, run_process, ensure_available,
}
use lsp_client.Local.Install.{ensure_pyrefly_installed}
use lsp_client.Local.Ended.{run_process-not_started}

-- With whether a program can be started, and what waiting for it comes to.
abbrev machine : Bool → Bool → Waited → Shell ℕ
machine found starts waited = record {
  which = λ program w. found;
  run_process = λ command w. (completed, w);
  open_process = λ command w. (starts, w);
  is_running = λ w. true;
  terminate = λ w. (true, w);
  wait = λ w. (waited, w);
  kill = λ w. (true, w);
}

abbrev fresh : Os ℕ
fresh = record { world = 0; process = absent }

abbrev pyrefly : Bool → Bool → LocalServer ℕ
pyrefly found starts = record {
  program = "pyrefly";
  args = "lsp" ∷ [];
  ensure_installed = some (ensure_pyrefly_installed (machine found starts timed_out));
  auto_installation_disabled = false;
}

abbrev body : Call ℕ ℕ
body s = (ok 3, s)

found : ensure_available (machine true true timed_out) (pyrefly true true) fresh ≡ (ok tt, fresh)
unfolding ensure_available
found = refl

-- With neither uv nor pip, nothing is installed, and nothing is raised.
not_installed :
    ensure_available (machine false false timed_out) (pyrefly false false) fresh ≡ (ok tt, fresh)
unfolding ensure_available ensure_pyrefly_installed
not_installed = refl

-- A session that is cancelled, so that its wait for the process is too, leaves the process.
left_behind :
    run_process (machine true true interrupted) (pyrefly true true) body fresh
    ≡ (err cancelled, record { world = 0; process = terminating })
unfolding run_process
left_behind = refl

run_process-not_started_example :
    (run_process (machine false false timed_out) (pyrefly false false) body fresh).0
    ≡ err attribute_error
run_process-not_started_example =
    run_process-not_started (machine false false timed_out) (pyrefly false false) body fresh fresh
      not_installed refl refl
