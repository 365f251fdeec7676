-- ===== src/Capability/Handled.antt =====
-- Which requests of a server a client answers: `build_server_request_hooks` and
-- `_dispatch_server_requests` together.
use lsp_client.Base.{
  ◌≡◌, refl, ap, ◌∙◌, ◌↔◌, String, Bool, true, false, ◌&&◌, ◌||◌, Option, List, [], ◌∷◌, ◌++◌,
  contains, str_eq, arith, eq_iff, is_some,
}
use lsp_client.Base.Dict.{lookup}
use lsp_client.Hooks.{
  Hook, request_hook, notification_hook, get_request_hook, dispatch, request, raises_unhandled,
}
use lsp_client.Hooks.Registered.{last_request, register_all-request, replaced}
use lsp_client.Capability.{
  Mixin, register_server_request_hooks, build_server_request_hooks, iter_methods,
}

-- Whether a hook is for requests of a method.
abbrev pub is_for : String → String × Hook → Bool
is_for method (m, request_hook x) = str_eq m method
is_for method (m, notification_hook x) = false

abbrev pub has_hook : String → List (String × Hook) → Bool
has_hook method [] = false
has_hook method (e ∷ es) = is_for method e || has_hook method es

-- Whether one of the mixins brings a hook for a method.
abbrev pub answers_any : String → List Mixin → Bool
answers_any method [] = false
answers_any method (m ∷ ms) = has_hook method m.hooks || answers_any method ms

is_some-last_request :
    (method : String) (es : List (String × Hook)) (old : Option String)
    → is_some (last_request method es old) ≡ (has_hook method es || is_some old)
unfolding last_request
is_some-last_request method [] old = refl
is_some-last_request method ((m, request_hook x) ∷ es) old =
    ground (arith, is_some-last_request method es (replaced method (m, request_hook x) old))
is_some-last_request method ((m, notification_hook x) ∷ es) old = is_some-last_request method es old

is_some-hook :
    (method : String) (ms : List Mixin)
    → is_some (get_request_hook method (build_server_request_hooks ms)) ≡ answers_any method ms
unfolding build_server_request_hooks register_server_request_hooks get_request_hook lookup
is_some-hook method [] = refl
is_some-hook method (m ∷ ms) =
    ap is_some (register_all-request method m.hooks (build_server_request_hooks ms))
    ∙ is_some-last_request method m.hooks (get_request_hook method (build_server_request_hooks ms))
    ∙ ap (λ b. has_hook method m.hooks || b) (is_some-hook method ms)

-- A request of the server that none of the mixins of a client has a hook for ends the session,
-- and no other does.
pub dispatch-raises_unhandled :
    (method : String) (ms : List Mixin)
    → (dispatch (build_server_request_hooks ms) (request method) ≡ raises_unhandled)
      ↔ (answers_any method ms ≡ false)
unfolding dispatch
dispatch-raises_unhandled method ms = ground (arith, is_some-hook method ms)

-- Whether the methods of the hooks are among those that a mixin lists.
abbrev pub lists_all : List String → List (String × Hook) → Bool
lists_all methods [] = true
lists_all methods ((m, hook) ∷ es) = contains m methods && lists_all methods es

abbrev pub all_listed : List Mixin → Bool
all_listed [] = true
all_listed (m ∷ ms) = lists_all m.methods m.hooks && all_listed ms

contains-append :
    (s : String) (xs ys : List String) → contains s (xs ++ ys) ≡ (contains s xs || contains s ys)
contains-append s [] ys = refl
contains-append s (x ∷ xs) ys = ground (arith, contains-append s xs ys)

lists_all-has_hook :
    (method : String) (methods : List String) (es : List (String × Hook))
    → lists_all methods es ≡ true
    → has_hook method es ≡ true
    → contains method methods ≡ true
lists_all-has_hook method methods [] h k = cc
lists_all-has_hook method methods ((m, request_hook x) ∷ es) h k =
    ground (arith, eq_iff m method, lists_all-has_hook method methods es)
lists_all-has_hook method methods ((m, notification_hook x) ∷ es) h k =
    ground (arith, lists_all-has_hook method methods es)

pub answers_any-listed :
    (method : String) (ms : List Mixin)
    → all_listed ms ≡ true
    → answers_any method ms ≡ true
    → contains method (iter_methods ms) ≡ true
unfolding iter_methods
answers_any-listed method [] l h = cc
answers_any-listed method (m ∷ ms) l h = ground (
  arith,
  contains-append method (iter_methods ms) m.methods,
  lists_all-has_hook method m.methods m.hooks,
  answers_any-listed method ms,
)
