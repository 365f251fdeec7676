-- ===== src/Local/Ended.antt =====
-- What `run_process` leaves behind.
use lsp_client.Base.{◌⊎◌, String, ◌≡◌, refl, Bool, true, false, List, ◌∷◌}
use lsp_client.Base.Exec.{Result, ok, err, ◌>>=◌}
use lsp_client.Local.{
  Failure, cancelled, os_error, terminating, attribute_error, Process, absent, running, killed,
  ended, Shell, Os, Call, LocalServer, with_process, start, wrap, after, stop_process, run_process,
  ensure_available,
}

abbrev pub is_over : Process → Bool
is_over absent = false
is_over running = false
is_over terminating = false
is_over killed = true
is_over (ended code) = true

-- The process is over, or what kept it from that is raised: the task was cancelled, or there was
-- nothing to kill.
abbrev pub Over : {A W : Type 0} → Result Failure A × Os W → Type 0
Over r = (is_over r.1.process ≡ true) ⊎ ((r.0 ≡ err cancelled) ⊎ (r.0 ≡ err os_error))

module _ {W : Type 0} (sh : Shell W) where
  module _ {A : Type 0} (server : LocalServer W) (body : Call W A) where
    abbrev command : List String
    command = server.program ∷ server.args

    -- If a server that has run no process yet cannot start its program, `run_process` raises
    -- `AttributeError` in place of the `ServerRuntimeError`.
    pub run_process-not_started :
        (s t : Os W)
        → ensure_available sh server s ≡ (ok tt, t)
        → (sh.open_process (server.program ∷ server.args) t.world).0 ≡ false
        → t.process ≡ absent
        → (run_process sh server body s).0 ≡ err attribute_error
    unfolding run_process with_process stop_process ◌>>=◌
    run_process-not_started s t a o n = simp a (go (sh.open_process command t.world) o)
      where
        go :
            (q : Bool × W)
            → q.0 ≡ false
            → after sh (wrap sh (start sh q body t).0) (stop_process sh (start sh q body t).1).0
              ≡ err attribute_error
        go (true, w) k = absurd (cc)
        go (false, w) k = simp n refl
