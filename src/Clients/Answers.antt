-- ===== src/Clients/Answers.antt =====
-- What the clients of the package answer and advertise.
use lsp_client.Base.{
  ◌≡◌, refl, ap, ◌↔◌, ◌⊎◌, inl, inr, String, Bool, true, false, ◌&&◌, ◌||◌, List, [], ◌∷◌, ◌++◌,
  if◌then◌else◌, All, All-map, contains, str_eq, arith, Bool-cases,
}
use lsp_client.Config.{end, get_field, set_field}
use lsp_client.Hooks.{Hook, request_hook, notification_hook, dispatch, request, raises_unhandled}
use lsp_client.Capability.{
  Section, workspace, text_document, window, experimental, Mixin, register_section, iter_methods,
  build_server_request_hooks, file_operations,
}
use lsp_client.Capability.Handled.{
  has_hook, answers_any, all_listed, answers_any-listed, dispatch-raises_unhandled,
}
use lsp_client.Capability.Advertised.{cuts_nothing, has_field-cuts_nothing, sets_any}
use lsp_client.Capability.Chain.{has_field}
use lsp_client.Clients.{ClientClass}
use lsp_client.Clients.Known.{clients}

-- The requests that the hooks of the mixins are for.
abbrev pub hook_methods : List (String × Hook) → List String
hook_methods [] = []
hook_methods ((m, request_hook x) ∷ es) = m ∷ hook_methods es
hook_methods ((m, notification_hook x) ∷ es) = hook_methods es

abbrev pub request_methods : List Mixin → List String
request_methods [] = []
request_methods (m ∷ ms) = hook_methods m.hooks ++ request_methods ms

abbrev pub is_one_of : String → List String → Bool
is_one_of s [] = false
is_one_of s (t ∷ ts) = str_eq t s || is_one_of s ts

is_one_of-append :
    (s : String) (xs ys : List String) → is_one_of s (xs ++ ys) ≡ (is_one_of s xs || is_one_of s ys)
is_one_of-append s [] ys = refl
is_one_of-append s (x ∷ xs) ys = ground (arith, is_one_of-append s xs ys)

has_hook-methods :
    (s : String) (es : List (String × Hook)) → has_hook s es ≡ is_one_of s (hook_methods es)
has_hook-methods s [] = refl
has_hook-methods s ((m, request_hook x) ∷ es) = ap (λ b. str_eq m s || b) (has_hook-methods s es)
has_hook-methods s ((m, notification_hook x) ∷ es) = has_hook-methods s es

answers_any-methods :
    (s : String) (ms : List Mixin) → answers_any s ms ≡ is_one_of s (request_methods ms)
answers_any-methods s [] = refl
answers_any-methods s (m ∷ ms) = ground (
  arith,
  has_hook-methods s m.hooks,
  answers_any-methods s ms,
  is_one_of-append s (hook_methods m.hooks) (request_methods ms),
)

-- The requests of a server that every client answers.
abbrev pub common_requests : List String
common_requests =
    "client/registerCapability" ∷ "client/unregisterCapability" ∷ "workspace/configuration"
    ∷ "workspace/inlayHint/refresh" ∷ "window/showDocument" ∷ "window/showMessageRequest"
    ∷ "workspace/workspaceFolders" ∷ []

-- With that of the clients that ask for the diagnostics of the workspace.
abbrev pub answered_requests : ClientClass → List String
answered_requests c =
    if contains "workspace/diagnostic" (iter_methods c.mixins)
    then "workspace/diagnostic/refresh" ∷ common_requests
    else common_requests

abbrev pub AnswersOnly : String → ClientClass → Type 0
AnswersOnly method c =
    (dispatch (build_server_request_hooks c.mixins) (request method) ≡ raises_unhandled)
    ↔ (is_one_of method (answered_requests c) ≡ false)

abbrev AnswersListed : ClientClass → Type 0
AnswersListed c = request_methods c.mixins ≡ answered_requests c

All-AnswersListed : All AnswersListed clients
unfolding iter_methods
All-AnswersListed = (refl, (refl, (refl, (refl, (refl, (refl, (refl, (refl, (refl, tt)))))))))

answers_only : (method : String) (c : ClientClass) → AnswersListed c → AnswersOnly method c
answers_only method c h = ground (
  arith,
  ap (is_one_of method) h,
  answers_any-methods method c.mixins,
  dispatch-raises_unhandled method c.mixins,
)

-- Each client of the package answers the common requests, and the refresh of diagnostics if it
-- asks for the diagnostics of the workspace; any other request of the server ends its session.
pub clients-AnswersOnly : (method : String) → All (AnswersOnly method) clients
clients-AnswersOnly method = All-map clients (answers_only method) All-AnswersListed

abbrev HooksListed : ClientClass → Type 0
HooksListed c = all_listed c.mixins ≡ true

hooks_listed : All HooksListed clients
hooks_listed = (refl, (refl, (refl, (refl, (refl, (refl, (refl, (refl, (refl, tt)))))))))

abbrev ListsAnswered : String → ClientClass → Type 0
ListsAnswered method c =
    (dispatch (build_server_request_hooks c.mixins) (request method) ≡ raises_unhandled)
    ⊎ (contains method (iter_methods c.mixins) ≡ true)

lists_answered : (method : String) (c : ClientClass) → HooksListed c → ListsAnswered method c
lists_answered method c h = elim (Bool-cases (answers_any method c.mixins)) [
  | inl answered ↦ inr (answers_any-listed method c.mixins h answered)
  | inr unanswered ↦ inl ((dispatch-raises_unhandled method c.mixins).1 unanswered)
]

-- Each request that a client of the package answers is one of the methods that it lists.
pub clients-iter_methods : (method : String) → All (ListsAnswered method) clients
clients-iter_methods method = All-map clients (lists_answered method) hooks_listed

-- No mixin that registers in a section is behind one that leaves out the call of the next class.
abbrev CutsNothing : ClientClass → Type 0
CutsNothing c =
    (cuts_nothing workspace c.mixins
      && (cuts_nothing text_document c.mixins
          && (cuts_nothing window c.mixins && cuts_nothing experimental c.mixins)))
    ≡ true

nothing_cut : All CutsNothing clients
nothing_cut = (refl, (refl, (refl, (refl, (refl, (refl, (refl, (refl, (refl, tt)))))))))

in_section : (s : Section) (c : ClientClass) → CutsNothing c → cuts_nothing s c.mixins ≡ true
in_section workspace c h = ground arith
in_section text_document c h = ground arith
in_section window c h = ground arith
in_section experimental c h = ground arith

All-both {κ ν} :
    (P : ClientClass → Type κ) (Q : ClientClass → Type ν) (cs : List ClientClass)
    → All P cs
    → All Q cs
    → All (λ c. P c × Q c) cs
All-both P Q [] a b = tt
All-both P Q (c ∷ cs) a b = ((a.0, b.0), All-both P Q cs a.1 b.1)

abbrev Advertises : Section → String → ClientClass → Type 0
Advertises s k c = has_field k (register_section s c.mixins end) ≡ sets_any s k c.mixins

-- The methods for file operations, with the members of `file_operations` that announce them.
abbrev pub file_operation_methods : List (String × String)
file_operation_methods =
    ("workspace/willCreateFiles", "will_create")
    ∷ ("workspace/didCreateFiles", "did_create")
    ∷ ("workspace/willRenameFiles", "will_rename")
    ∷ ("workspace/didRenameFiles", "did_rename")
    ∷ ("workspace/willDeleteFiles", "will_delete")
    ∷ ("workspace/didDeleteFiles", "did_delete")
    ∷ []

-- The client announces a file operation just if it lists its method.
abbrev pub Announces : ClientClass → String × String → Type 0
Announces c e =
    has_field e.1
      (file_operations (get_field "file_operations" (register_section workspace c.mixins end)))
    ≡ contains e.0 (iter_methods c.mixins)

abbrev AnnouncesAll : ClientClass → Type 0
AnnouncesAll c = All (Announces c) file_operation_methods

All-AnnouncesAll : All AnnouncesAll clients
unfolding register_section iter_methods get_field set_field
All-AnnouncesAll = (
  (refl, (refl, (refl, (refl, (refl, (refl, tt)))))),
  (
    (refl, (refl, (refl, (refl, (refl, (refl, tt)))))),
    (
      (refl, (refl, (refl, (refl, (refl, (refl, tt)))))),
      (
        (refl, (refl, (refl, (refl, (refl, (refl, tt)))))),
        (
          (refl, (refl, (refl, (refl, (refl, (refl, tt)))))),
          (
            (refl, (refl, (refl, (refl, (refl, (refl, tt)))))),
            (
              (refl, (refl, (refl, (refl, (refl, (refl, tt)))))),
              (
                (refl, (refl, (refl, (refl, (refl, (refl, tt)))))),
                ((refl, (refl, (refl, (refl, (refl, (refl, tt)))))), tt),
              ),
            ),
          ),
        ),
      ),
    ),
  ),
)

abbrev pub AdvertisesOwn : Section → String → ClientClass → Type 0
AdvertisesOwn s k c = Advertises s k c × AnnouncesAll c

-- Each client of the package advertises in each section just the keys that its mixins set, so that
-- none of them cuts off another; and it announces just those file operations whose methods it
-- lists, though several mixins add to the same object.
pub clients-AdvertisesOwn : (s : Section) (k : String) → All (AdvertisesOwn s k) clients
clients-AdvertisesOwn s k =
    All-both (Advertises s k) AnnouncesAll clients
      (All-map clients (λ c cut. has_field-cuts_nothing s k c.mixins (in_section s c cut))
        nothing_cut)
      All-AnnouncesAll
