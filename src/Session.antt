-- ===== src/Session.antt =====
-- client/abc.py and jsonrpc/convert.py: a session with a server, from `initialize` to `exit`. What the server
-- answers to a request within the timeout, and what the converter makes of a value, are parameters. The
-- task that dispatches what the server sends is in Hooks.antt.
pub mod Trace
pub mod Protocol
pub mod Outcome
pub mod Tests
use lsp_client.Base.{
  ℕ, String, Bool, true, false, Option, none, some, List, [], ◌∷◌, ◌++◌, if◌then◌else◌,
}
use lsp_client.Base.Int.{ℤ}
use lsp_client.Base.Exec.{Result, ok, err, Exec, pure, raise, lift, ◌>>=◌, ◌>>◌}
use lsp_client.Config.{Value, Fields, end}
use lsp_client.Capability.{Mixin, check_server_capability}

-- `ResponseError`; `detail` is its `data`
pub record ErrorBody : Type 0 where
  pub code : ℤ
  pub message : String
  pub detail : Option Value

-- The members of a response: what stands at "error", which may be null, and at "result".
pub record RawResponse : Type 0 where
  pub error : Option (Option ErrorBody)
  pub result : Option Value

-- What a session may raise, and what its body may.
pub data Failure (E : Type 0) : Type 0 where
  timeout parse_error : Failure E
  response_error : ErrorBody → Failure E
  -- the `AssertionError` of `check_server_capability`
  unsupported : String → Failure E
  raised : E → Failure E

pub data Message : Type 0 where
  request notification : String → Message

pub record State (W : Type 0) : Type 0 where
  pub sent : List Message
  pub world : W

pub record InitializeResult : Type 0 where
  pub provides : String → Bool
  pub server_info : Option String

-- The parts of a client that a session uses.
pub record Parameters (W E : Type 0) : Type 0 where
  -- `get_server().request` and `.notify` within `fail_after(request_timeout)`
  pub respond : String → W → Result (Failure E) RawResponse × W
  pub deliver : String → W → Result (Failure E) (Unit {0}) × W
  -- `wait_requests_completed(timeout=request_timeout)`
  pub wait : W → Result (Failure E) (Unit {0}) × W
  -- `converter.structure` for the answers to `initialize` and to `shutdown`
  pub to_initialize_result : Value → Result (Failure E) InitializeResult
  pub to_null : Value → Result (Failure E) (Unit {0})
  pub check_server_compatibility : Option String → Result (Failure E) (Unit {0})
  -- `__debug__`
  pub debug : Bool
  pub mixins : List Mixin
  pub default_config : Option Fields

abbrev pub Session : Type 0 → Type 0 → Type 0 → Type 0
Session W E A = Exec (State W) (Failure E) A

unfoldable pub response_deserialize :
    {R E : Type 0} → (Value → Result (Failure E) R) → RawResponse → Result (Failure E) R
response_deserialize structure r = elim r.error [
  | some (some e) ↦ err (response_error e)
  | some none ↦ err parse_error
  | none ↦ elim r.result [ some v ↦ structure v | none ↦ err parse_error ]
]

-- `try: yield finally: last`
abbrev pub settle :
    {A E : Type 0} → Result (Failure E) A → Result (Failure E) (Unit {0}) → Result (Failure E) A
settle r (ok u) = r
settle r (err e) = err e

module _ {W E : Type 0} where
  -- Sends a message and runs what the server makes of it.
  abbrev pub exchange : {A : Type 0} → Message → (W → Result (Failure E) A × W) → Session W E A
  exchange m f s = let r = f s.world in (r.0, record s { sent = s.sent ++ m ∷ []; world = r.1 })

  unfoldable pub try_finally : {A : Type 0} → Session W E A → Session W E (Unit {0}) → Session W E A
  try_finally body last s = let r = body s in let l = last r.1 in (settle r.0 l.0, l.1)

  module _ (p : Parameters W E) where
    unfoldable pub ask : {R : Type 0} → String → (Value → Result (Failure E) R) → Session W E R
    unfolding response_deserialize ◌>>=◌
    ask method structure = do
      raw_resp ← exchange (request method) (p.respond method)
      lift (response_deserialize structure raw_resp)

    unfoldable pub tell : String → Session W E (Unit {0})
    tell method = exchange (notification method) (p.deliver method)

    abbrev supported : Result String (Unit {0}) → Result (Failure E) (Unit {0})
    supported (ok u) = ok tt
    supported (err attribute) = err (unsupported attribute)

    abbrev check : InitializeResult → Session W E (Unit {0})
    check result =
        if p.debug
        then (do
          lift (p.check_server_compatibility result.server_info)
          lift (supported (check_server_capability p.mixins result.provides)))
        else pure tt

    unfoldable pub initialize : Session W E (Unit {0})
    unfolding ask tell ◌>>=◌
    initialize = do
      result ← ask "initialize" p.to_initialize_result
      check result
      tell "initialized"

    unfoldable pub shutdown : Session W E (Unit {0})
    unfolding ask
    shutdown = ask "shutdown" p.to_null

    unfoldable pub exit : Session W E (Unit {0})
    unfolding tell
    exit = tell "exit"

    abbrev wait_requests_completed : Session W E (Unit {0})
    wait_requests_completed s = let r = p.wait s.world in (r.0, record s { world = r.1 })

    -- The `finally` of a session.
    unfoldable pub close : Session W E (Unit {0})
    unfolding shutdown exit ◌>>=◌
    close = do wait_requests_completed; shutdown; exit

    -- `if init_config := self.create_default_config(): …`, with the update of the configuration
    -- and its callbacks
    abbrev pub configure :
        (Fields → Session W E (Unit {0})) → Option Fields → Session W E (Unit {0})
    configure update_global none = pure tt
    configure update_global (some end) = pure tt
    configure update_global (some config) = update_global config

    -- `async with client: body`, from where the server has started
    unfoldable pub run_session :
        {A : Type 0} → (Fields → Session W E (Unit {0})) → Session W E A → Session W E A
    unfolding initialize close try_finally ◌>>=◌
    run_session update_global body = do
      initialize
      configure update_global p.default_config
      try_finally body close
