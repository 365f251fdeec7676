-- ===== src/Dispatch.antt =====
-- server/abc.py: the loop of `StreamServer` that reads packages and starts a task for each. The keys
-- of a package, whether Python takes it for true, and whether one of the tasks that were started has
-- raised when the loop comes to wait for a package, are parameters.
pub mod Stream
pub mod Tests
use lsp_client.Base.{ℕ, zero, suc, Bool, Option, none, some, List, [], ◌∷◌, ◌++◌, if◌then◌else◌}
use lsp_client.Base.Exec.{Result, ok, err}
use lsp_client.Framing.{
  FrameError, transport_error, parse_error, closed, delimiter_not_found, ByteStream, Json,
  read_raw_package,
}
use lsp_client.Table.{Keys, Route, handle_package}

-- How the loop ends: it goes on after the rounds that are looked at, stops, raises, or is cancelled
-- by the task group, since one of its tasks has raised.
pub data Ending : Type 0 where
  running stopped cancelled : Ending
  raised : FrameError → Ending

-- What becomes of the packages that were read, in the order of their tasks.
pub record Dispatch : Type 0 where
  pub routes : List Route
  pub ending : Ending

abbrev pub route_first : Route → Dispatch → Dispatch
route_first r d = record { routes = r ∷ d.routes; ending = d.ending }

module _ (b : ByteStream) (j : Json) where
  abbrev pub caught :
      Result FrameError (j.Package × b.Stream) → Result FrameError (Option (j.Package × b.Stream))
  caught (ok (message, s)) = ok (some (message, s))
  caught (err closed) = ok none
  caught (err transport_error) = err transport_error
  caught (err parse_error) = err parse_error
  caught (err delimiter_not_found) = err delimiter_not_found

  unfoldable pub receive : b.Stream → Result FrameError (Option (j.Package × b.Stream))
  unfolding read_raw_package
  receive s = caught (read_raw_package b j s)

module _ (b : ByteStream) (j : Json) (keys : j.Package → Keys) (truthy : j.Package → Bool)
    (interrupted : List Route → Bool) where
  -- The body of the `while` loop, with the rest of the loop.
  abbrev pub with_message :
      (Route → b.Stream → Dispatch) → Result FrameError (Option (j.Package × b.Stream)) → Dispatch
  with_message continue (err e) = record { routes = []; ending = raised e }
  with_message continue (ok none) = record { routes = []; ending = stopped }
  with_message continue (ok (some (message, s))) =
      let r = handle_package (keys message) in
      if truthy message
      then route_first r (continue r s)
      else record { routes = []; ending = stopped }

  -- At most as many rounds as the number says, behind the tasks that were started before.
  unfoldable pub dispatch_loop : ℕ → List Route → b.Stream → Dispatch
  unfolding receive handle_package
  dispatch_loop zero started s = record { routes = []; ending = running }
  dispatch_loop (suc n) started s =
      let next = with_message (λ r t. dispatch_loop n (started ++ r ∷ []) t) (receive b j s) in
      if interrupted started then record { routes = []; ending = cancelled } else next
