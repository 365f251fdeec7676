-- ===== src/Hooks/Registered.antt =====
-- What a registry has after hooks have been registered.
use lsp_client.Base.{
  ℕ, ◌+◌, ◌≡◌, refl, ap, ◌∙◌, String, Bool, false, ◌&&◌, ◌||◌, Option, none, some, List, [], ◌∷◌,
  ◌==◌, if◌then◌else◌, str_eq, arith, eq_iff,
}
use lsp_client.Base.Dict.{lookup, lookup-insert}
use lsp_client.Hooks.{
  Hook, request_hook, notification_hook, ServerRequestHookRegistry, new_registry, add_hook,
  or_empty, get_request_hook, get_notification_hooks, register_hook,
}

-- How often a hook is in a list.
unfoldable pub times : String → List String → ℕ
times x [] = 0
times x (y ∷ ys) = let rest = times x ys in if str_eq y x then rest + 1 else rest

times-add_hook :
    (x y : String) (hooks : List String)
    → times y (add_hook x hooks) ≡ (if str_eq x y && times y hooks == 0 then 1 else times y hooks)
unfolding times add_hook
times-add_hook x y [] = ground (arith, eq_iff x y)
times-add_hook x y (z ∷ zs) =
    ground (arith, times-add_hook x y zs, eq_iff z x, eq_iff z y, eq_iff x y)

-- The registrations, in order.
unfoldable pub register_all :
    List (String × Hook) → ServerRequestHookRegistry → ServerRequestHookRegistry
register_all [] r = r
register_all ((method, hook) ∷ rest) r = register_all rest (register_hook method hook r)

-- The request hook of a method that was registered last.
abbrev pub replaced : String → String × Hook → Option String → Option String
replaced method (m, request_hook x) old = if str_eq m method then some x else old
replaced method (m, notification_hook x) old = old

unfoldable pub last_request : String → List (String × Hook) → Option String → Option String
last_request method [] old = old
last_request method (e ∷ rest) old = last_request method rest (replaced method e old)

pub register_all-request :
    (method : String) (l : List (String × Hook)) (r : ServerRequestHookRegistry)
    → get_request_hook method (register_all l r) ≡ last_request method l (get_request_hook method r)
unfolding get_request_hook register_all last_request register_hook
register_all-request method [] r = refl
register_all-request method ((m, request_hook x) ∷ rest) r =
    register_all-request method rest (register_hook m (request_hook x) r)
    ∙ ap (last_request method rest) (lookup-insert m method x r.req)
register_all-request method ((m, notification_hook x) ∷ rest) r =
    register_all-request method rest (register_hook m (notification_hook x) r)

-- Whether a notification hook is registered for a method.
abbrev pub is_entry : String → String → String × Hook → Bool
is_entry method x (m, request_hook y) = false
is_entry method x (m, notification_hook y) = str_eq m method && str_eq y x

unfoldable pub is_registered : String → String → List (String × Hook) → Bool
is_registered method x [] = false
is_registered method x (e ∷ rest) = is_entry method x e || is_registered method x rest

register_hook-times :
    (method m x y : String) (r : ServerRequestHookRegistry)
    → times x (get_notification_hooks method (register_hook m (notification_hook y) r)) ≡ (
        if str_eq m method && str_eq y x && times x (get_notification_hooks method r) == 0
        then 1
        else times x (get_notification_hooks method r))
unfolding get_notification_hooks register_hook
register_hook-times method m x y r =
    let hooks = or_empty (lookup m r.noti) in
    ground (
      arith,
      eq_iff m method,
      lookup-insert m method (add_hook y hooks) r.noti,
      times-add_hook y x hooks,
    )

register_all-times :
    (method : String) (x : String) (l : List (String × Hook)) (r : ServerRequestHookRegistry)
    → times x (get_notification_hooks method (register_all l r)) ≡ (
        if is_registered method x l && times x (get_notification_hooks method r) == 0
        then 1
        else times x (get_notification_hooks method r))
unfolding register_all is_registered
register_all-times method x [] r = refl
register_all-times method x ((m, request_hook y) ∷ rest) r =
    register_all-times method x rest (register_hook m (request_hook y) r)
    ∙ unfold get_notification_hooks register_hook in refl
register_all-times method x ((m, notification_hook y) ∷ rest) r = ground (
  arith,
  register_all-times method x rest (register_hook m (notification_hook y) r),
  register_hook-times method m x y r,
)

none_yet : (method : String) (x : String) → times x (get_notification_hooks method new_registry) ≡ 0
unfolding get_notification_hooks times lookup
none_yet method x = refl

-- In a registry filled from the empty one, a method has the request hook that was registered for
-- it last, and each notification hook that was registered for it exactly once, however often it
-- was registered.
pub register_all_lem :
    (method : String) (l : List (String × Hook))
    → (get_request_hook method (register_all l new_registry) ≡ last_request method l none)
      × ((x : String)
          → times x (get_notification_hooks method (register_all l new_registry))
            ≡ (if is_registered method x l then 1 else 0))
register_all_lem method l = (
  register_all-request method l new_registry
      ∙ ap (last_request method l) (unfold get_request_hook lookup in refl),
  λ x. ground (arith, register_all-times method x l new_registry, none_yet method x),
)
