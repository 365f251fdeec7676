-- ===== src/Hooks.antt =====
-- protocol/hook.py: the registry of the hooks for what the server asks, and which of them
-- `_dispatch_server_requests` of client/abc.py runs. A hook is known by the name of the method that executes it.
-- `dispatch` converts a notification anew for each hook, from what the last conversion gave: a hook
-- comes with the number of conversions that its argument has had.
pub mod Registered
pub mod Tests
use lsp_client.Base.{
  ℕ, String, Bool, true, false, Option, none, some, List, [], ◌∷◌, ◌++◌, ◌==◌, if◌then◌else◌,
  str_eq, zero, suc,
}
use lsp_client.Base.Dict.{Dict, lookup, insert}

pub data Hook : Type 0 where
  request_hook : String → Hook
  notification_hook : String → Hook

pub record ServerRequestHookRegistry : Type 0 where
  pub req : Dict String
  pub noti : Dict (List String)

abbrev pub new_registry : ServerRequestHookRegistry
new_registry = record { req = []; noti = [] }

-- `add` on a set of hooks
unfoldable pub add_hook : String → List String → List String
add_hook x [] = x ∷ []
add_hook x (y ∷ ys) = if str_eq y x then y ∷ ys else y ∷ add_hook x ys

abbrev pub or_empty : Option (List String) → List String
or_empty none = []
or_empty (some hooks) = hooks

unfoldable pub get_request_hook : String → ServerRequestHookRegistry → Option String
get_request_hook method r = lookup method r.req

unfoldable pub get_notification_hooks : String → ServerRequestHookRegistry → List String
get_notification_hooks method r = or_empty (lookup method r.noti)

unfoldable pub register_hook : String → Hook → ServerRequestHookRegistry → ServerRequestHookRegistry
unfolding add_hook
register_hook method (request_hook x) r = record r { req = insert method x r.req }
register_hook method (notification_hook x) r = record r {
  noti = insert method (add_hook x (or_empty (lookup method r.noti))) r.noti;
}

-- What the server sends, by its method.
pub data ServerMessage : Type 0 where
  request notification : String → ServerMessage

-- What comes of it: the answer of a hook, the hooks that are run, an exception that ends the
-- session, or a warning.
pub data Dispatched : Type 0 where
  answers : String → Dispatched
  runs : List (String × ℕ) → Dispatched
  raises_unhandled warns_unhandled : Dispatched

abbrev answer_with : Option String → Dispatched
answer_with none = raises_unhandled
answer_with (some hook) = answers hook

-- `for hook in noti_hooks: noti = request_deserialize(noti, hook.cls); …`
unfoldable pub converted : ℕ → List String → List (String × ℕ)
converted n [] = []
converted n (hook ∷ hooks) = (hook, suc n) ∷ converted (suc n) hooks

abbrev run_all : List String → Dispatched
run_all [] = warns_unhandled
run_all (hook ∷ hooks) = runs (converted 0 (hook ∷ hooks))

unfoldable pub dispatch : ServerRequestHookRegistry → ServerMessage → Dispatched
unfolding get_request_hook get_notification_hooks converted
dispatch hooks (request method) = answer_with (get_request_hook method hooks)
dispatch hooks (notification method) = run_all (get_notification_hooks method hooks)
