-- ===== src/Capability.antt =====
-- protocol/capability.py and capability/build.py: what a capability mixin adds to a client class.
-- A class is the list of its mixins in the method resolution order. Each of the methods that
-- mixins share calls that of the next class first, unless it leaves that call out. A client
-- capability is a JSON object whose keys are the fields of the class of `lsprotocol`; a value set
-- of all members of an enumeration is written by the enumeration's name.
pub mod Request
pub mod Edits
pub mod Notify
pub mod Respond
pub mod Receive
pub mod Deno
pub mod Catalogue
pub mod Inspect
pub mod Chain
pub mod Handled
pub mod Advertised
pub mod Tests
use lsp_client.Base.{
  ℕ, String, Bool, true, false, ◌&&◌, not, Option, none, some, List, [], ◌∷◌, ◌++◌, if◌then◌else◌,
  str_eq,
}
use lsp_client.Base.Exec.{Result, ok, err}
use lsp_client.Config.{
  Value, Items, Fields, nil, cons, text, array, boolean, object, end, get_field, set_field,
}
use lsp_client.Hooks.{Hook, ServerRequestHookRegistry, new_registry}
use lsp_client.Hooks.Registered.{register_all}

abbrev pub enabled : Value
enabled = boolean true

unfoldable pub items : List String → Items
items [] = nil
items (x ∷ xs) = cons (text x) (items xs)

abbrev pub strings : List String → Value
strings xs = array (items xs)

-- The parts of the client's capabilities that mixins register in.
pub data Section : Type 0 where
  workspace text_document window experimental : Section

abbrev pub same_section : Section → Section → Bool
same_section workspace workspace = true
same_section text_document text_document = true
same_section window window = true
same_section experimental experimental = true
same_section _ _ = false

-- `cap.key = value`, or a member of `cap.file_operations`, which is made if it is `None`
pub data Change : Type 0 where
  sets : String → Value → Change
  sets_file_operation : String → Change

abbrev pub file_operations : Option Value → Fields
file_operations (some (object fs)) = fs
file_operations _ = end

unfoldable pub change : Change → Fields → Fields
change (sets key value) caps = set_field key value caps
change (sets_file_operation key) caps =
    set_field "file_operations"
      (object (set_field key (boolean true) (file_operations (get_field "file_operations" caps))))
      caps

unfoldable pub change_all : List Change → Fields → Fields
unfolding change
change_all [] caps = caps
change_all (c ∷ cs) caps = change_all cs (change c caps)

-- A `register_…_capability` of a mixin: of which section, whether it calls that of the next class,
-- and what it sets afterwards.
pub data Registration : Type 0 where
  inherits : Registration
  overrides : Section → Bool → List Change → Registration

pub record Mixin : Type 0 where
  pub methods : List String
  pub registration : Registration
  -- the attributes of the server's capabilities that are asserted
  pub required : List String
  pub hooks : List (String × Hook)

-- What a registration makes of what the later classes register.
abbrev pub registered : Section → Registration → Fields → Fields → Fields
registered s inherits later caps = later
registered s (overrides t calls_super changes) later caps =
    if same_section s t then change_all changes (if calls_super then later else caps) else later

unfoldable pub register_section : Section → List Mixin → Fields → Fields
unfolding change_all
register_section s [] caps = caps
register_section s (m ∷ ms) caps = registered s m.registration (register_section s ms caps) caps

unfoldable pub iter_methods : List Mixin → List String
iter_methods [] = []
iter_methods (m ∷ ms) = iter_methods ms ++ m.methods

-- The first attribute that is asserted and not there, by `provides`.
unfoldable pub assert_all : (String → Bool) → List String → Result String (Unit {0})
assert_all provides [] = ok tt
assert_all provides (p ∷ ps) = if provides p then assert_all provides ps else err p

abbrev pub and_then : Result String (Unit {0}) → Result String (Unit {0}) → Result String (Unit {0})
and_then (ok u) next = next
and_then (err e) next = err e

unfoldable pub check_server_capability : List Mixin → (String → Bool) → Result String (Unit {0})
unfolding assert_all
check_server_capability [] provides = ok tt
check_server_capability (m ∷ ms) provides =
    and_then (check_server_capability ms provides) (assert_all provides m.required)

unfoldable pub register_server_request_hooks :
    List Mixin → ServerRequestHookRegistry → ServerRequestHookRegistry
register_server_request_hooks [] r = r
register_server_request_hooks (m ∷ ms) r = register_all m.hooks (register_server_request_hooks ms r)

pub record ClientCapabilities : Type 0 where
  pub workspace : Fields
  pub text_document : Fields
  pub window : Fields
  -- `experimental or None`
  pub experimental : Option Fields

abbrev pub or_none : Fields → Option Fields
or_none end = none
or_none fs = some fs

unfoldable pub build_client_capabilities : List Mixin → ClientCapabilities
unfolding register_section
build_client_capabilities ms = record {
  workspace = register_section workspace ms end;
  text_document = register_section text_document ms end;
  window = register_section window ms end;
  experimental = or_none (register_section experimental ms end);
}

unfoldable pub build_server_request_hooks : List Mixin → ServerRequestHookRegistry
unfolding register_server_request_hooks
build_server_request_hooks ms = register_server_request_hooks ms new_registry
