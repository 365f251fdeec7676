-- ===== src/Session/Protocol.antt =====
-- A session keeps the order of messages that the protocol asks for.
use lsp_client.Base.{
  ◌≡◌, ◌≢◌, refl, sym, ap, ◌∙◌, String, Option, none, some, [], ◌∷◌, ◌++◌, Bool-cases, inl, inr,
}
use lsp_client.Base.Exec.{Result, ok, err, pure, lift}
use lsp_client.Config.{Value, Fields, end, field}
use lsp_client.Session.{
  Failure, Message, request, notification, State, Parameters, Session, InitializeResult, exchange,
  ask, tell, initialize, shutdown, exit, close, configure, run_session, response_deserialize, check,
}
use lsp_client.Session.Trace.{
  Life, start, asked, running, stopping, exited, broken, next, life, life-append, At, IsOrdered,
  Post, Hoare, bind-Hoare, finally-Hoare,
}

At-IsOrdered : {W : Type 0} (l : Life) → l ≢ broken → (s : State W) → At l s → IsOrdered s
At-IsOrdered l n s a b = n (sym a ∙ b)

module _ {W E : Type 0} where
  -- A call that sends nothing.
  quiet-Hoare :
      {A : Type 0} (l : Life) (n : l ≢ broken) (r : State W → Result (Failure E) A × W)
      → Hoare (At l) (λ s. ((r s).0, record s { world = (r s).1 })) (At l) IsOrdered
  quiet-Hoare {A} l n r = record { at = λ s a. go (r s) s a }
    where
      go :
          (q : Result (Failure E) A × W) (s : State W)
          → At l s
          → Post (At l) IsOrdered (q.0, record s { world = q.1 })
      go (ok x, w) s a = a
      go (err e, w) s a = At-IsOrdered l n s a

  -- A call that sends a message.
  exchange-Hoare :
      {A : Type 0} (m : Message) (f : W → Result (Failure E) A × W) (l l' : Life)
      → next l m ≡ l'
      → l' ≢ broken
      → Hoare (At l) (exchange m f) (At l') IsOrdered
  exchange-Hoare {A} m f l l' k n = record { at = λ s a. go (f s.world) s a }
    where
      moved : (s : State W) → At l s → life (s.sent ++ m ∷ []) start ≡ l'
      moved s a = life-append s.sent m start ∙ ap (λ (i : Life). next i m) a ∙ k

      go :
          (q : Result (Failure E) A × W) (s : State W)
          → At l s
          → Post (At l') IsOrdered (q.0, record s { sent = s.sent ++ m ∷ []; world = q.1 })
      go (ok x, w) s a = moved s a
      go (err e, w) s a =
          At-IsOrdered l' n (record s { sent = s.sent ++ m ∷ []; world = w }) (moved s a)

  module _ (p : Parameters W E) where
    ask-Hoare :
        {R : Type 0} (method : String) (structure : Value → Result (Failure E) R) (l l' : Life)
        → next l (request method) ≡ l'
        → l' ≢ broken
        → Hoare (At l) (ask p method structure) (At l') IsOrdered
    unfolding ask lift
    ask-Hoare method structure l l' k n =
        bind-Hoare (exchange (request method) (p.respond method)) _
          (exchange-Hoare (request method) (p.respond method) l l' k n)
          (λ raw. quiet-Hoare l' n (λ s. (response_deserialize structure raw, s.world)))

    tell-Hoare :
        (method : String) (l l' : Life)
        → next l (notification method) ≡ l'
        → l' ≢ broken
        → Hoare (At l) (tell p method) (At l') IsOrdered
    unfolding tell
    tell-Hoare method l l' k n = exchange-Hoare (notification method) (p.deliver method) l l' k n

    lift-Hoare :
        {R : Type 0} (l : Life) (n : l ≢ broken) (r : Result (Failure E) R)
        → Hoare {S = State W} (At l) (lift r) (At l) IsOrdered
    unfolding lift
    lift-Hoare l n r = quiet-Hoare l n (λ s. (r, s.world))

    check-Hoare :
        (result : InitializeResult) → Hoare (At asked) (check p result) (At asked) IsOrdered
    unfolding pure
    check-Hoare result = elim (Bool-cases p.debug) [
      | inl on ↦
          rw on (bind-Hoare _ _ (lift-Hoare asked (λ e. cc) _) (λ u. lift-Hoare asked (λ e. cc) _))
      | inr off ↦ rw off (quiet-Hoare asked (λ e. cc) (λ s. (ok tt, s.world)))
    ]

    initialize-Hoare : Hoare (At start) (initialize p) (At running) IsOrdered
    unfolding initialize
    initialize-Hoare =
        bind-Hoare _ _ (ask-Hoare "initialize" p.to_initialize_result start asked refl (λ e. cc))
          (λ result.
            bind-Hoare _ _ (check-Hoare result)
              (λ u. tell-Hoare "initialized" asked running refl (λ e. cc)))

    close-Hoare : Hoare (At running) (close p) (At exited) IsOrdered
    unfolding close shutdown exit
    close-Hoare = bind-Hoare _ _ (quiet-Hoare running (λ e. cc) (λ s. p.wait s.world)) (λ u.
        bind-Hoare _ _ (ask-Hoare "shutdown" p.to_null running stopping refl (λ e. cc))
          (λ v. tell-Hoare "exit" stopping exited refl (λ e. cc)))

    module _ (update_global : Fields → Session W E (Unit {0}))
        (updates : (config : Fields)
          → Hoare (At running) (update_global config) (At running) IsOrdered) where
      configure-Hoare :
          (config : Option Fields)
          → Hoare (At running) (configure p update_global config) (At running) IsOrdered
      unfolding pure
      configure-Hoare none = quiet-Hoare running (λ e. cc) (λ s. (ok tt, s.world))
      configure-Hoare (some end) = quiet-Hoare running (λ e. cc) (λ s. (ok tt, s.world))
      configure-Hoare (some (field k v fs)) = updates (field k v fs)

      -- If the body of a session and the update of its configuration send only what a running
      -- client may send, then from a client that has sent nothing the session keeps the order of
      -- the protocol whatever the server answers and whatever fails: where it returns, the last
      -- message is `exit`, and where it raises, the messages are a beginning of such an order.
      pub run_session-IsOrdered :
          {A : Type 0} (body : Session W E A) (s : State W)
          → Hoare (At running) body (At running) (At running)
          → s.sent ≡ []
          → Post (At exited) IsOrdered (run_session p update_global body s)
      unfolding run_session life
      run_session-IsOrdered body s b e =
          (bind-Hoare _ _ initialize-Hoare (λ u.
              bind-Hoare _ _ (configure-Hoare p.default_config) (λ v.
                finally-Hoare body (close p) b close-Hoare (At-IsOrdered exited (λ q. cc))))).at
            s (ap (λ l. life l start) e)
