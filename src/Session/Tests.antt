-- ===== src/Session/Tests.antt =====
-- A server that supports hovers, and a body that sends one notification.
use lsp_client.Capability.{check_server_capability}
use lsp_client.Base.{ℕ, ◌≡◌, refl, ap, ◌∙◌, Bool, true, false, none, some, [], ◌∷◌, ◌++◌}
use lsp_client.Base.Exec.{Result, ok, err}
use lsp_client.Config.{Fields, null}
use lsp_client.Capability.Request.{with_request_hover}
use lsp_client.Capability.Advertised.{provides_all, required_of}
use lsp_client.Session.{
  Failure, timeout, RawResponse, InitializeResult, request, notification, State, Parameters,
  Session, initialize, close, run_session, try_finally, response_deserialize,
}
use lsp_client.Session.Trace.{At, IsOrdered, Post, Hoare, running, exited, start, life-append, next}
use lsp_client.Session.Protocol.{run_session-IsOrdered}
use lsp_client.Session.Outcome.{try_finally-wait_fails, initialize-supported}

abbrev answered : RawResponse
answered = record { error = none; result = some null }

-- Whether the pending requests complete in time.
abbrev parameters : Bool → Parameters ℕ ℕ
parameters completes = record {
  respond = λ method w. (ok answered, w);
  deliver = λ method w. (ok tt, w);
  wait = waits completes;
  to_initialize_result = λ v. ok (record { provides = λ p. true; server_info = none });
  to_null = λ v. ok tt;
  check_server_compatibility = λ info. ok tt;
  debug = true;
  mixins = with_request_hover ∷ [];
  default_config = none;
}
  where
    waits : Bool → ℕ → Result (Failure ℕ) (Unit {0}) × ℕ
    waits true w = (ok tt, w)
    waits false w = (err timeout, w)

abbrev new_state : State ℕ
new_state = record { sent = []; world = 0 }

abbrev body : Session ℕ ℕ ℕ
body s = (ok 7, record s { sent = s.sent ++ notification "textDocument/didOpen" ∷ [] })

abbrev no_update : Fields → Session ℕ ℕ (Unit {0})
no_update config s = (ok tt, s)

whole_session : run_session (parameters true) no_update body new_state ≡ (
  ok 7,
  record {
    sent =
        request "initialize"
        ∷ notification "initialized"
        ∷ notification "textDocument/didOpen"
        ∷ request "shutdown"
        ∷ notification "exit"
        ∷ [];
    world = 0;
  },
)
unfolding run_session check_server_capability
whole_session = refl

body-Hoare : Hoare (At running) body (At running) (At running)
body-Hoare = record {
  at = λ s a.
      life-append s.sent (notification "textDocument/didOpen") start
      ∙ ap (λ l. next l (notification "textDocument/didOpen")) a;
}

run_session-IsOrdered_example :
    Post (At exited) IsOrdered (run_session (parameters true) no_update body new_state)
run_session-IsOrdered_example =
    run_session-IsOrdered (parameters true) no_update (λ config. record { at = λ s a. a }) body
      new_state body-Hoare refl

try_finally-wait_fails_example :
    try_finally body (close (parameters false)) new_state
    ≡ (err timeout, record { sent = notification "textDocument/didOpen" ∷ []; world = 0 })
try_finally-wait_fails_example =
    try_finally-wait_fails (parameters false) body new_state
      (record { sent = notification "textDocument/didOpen" ∷ []; world = 0 }) (ok 7) timeout 0 refl
      refl

initialized : (initialize (parameters true) new_state).0 ≡ ok tt
unfolding initialize check_server_capability
initialized = refl

initialize-supported_example :
    (raw : RawResponse) × (result : InitializeResult) × (((parameters true).respond "initialize"
        new_state.world).0
      ≡ ok raw)
    × (response_deserialize (parameters true).to_initialize_result raw ≡ ok result)
    × (provides_all result.provides (required_of (parameters true).mixins) ≡ true)
initialize-supported_example = initialize-supported (parameters true) new_state refl initialized
