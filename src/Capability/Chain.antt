-- ===== src/Capability/Chain.antt =====
-- The chain of calls of `super()` in `register_…_capability` and `check_server_capability`.
use lsp_client.Base.{
  ◌≡◌, refl, ap, ◌∙◌, String, Bool, true, false, ◌&&◌, ◌||◌, not, some, List, [], ◌∷◌,
  if◌then◌else◌, str_eq, arith, eq_iff, is_some,
}
use lsp_client.Config.{Value, Fields, object, boolean, end, field, get_field, set_field}
use lsp_client.Capability.{
  Section, same_section, Change, sets, sets_file_operation, file_operations, change, change_all,
  Registration, inherits, overrides, Mixin, registered, register_section,
}

-- A mixin keeps what the later classes register in a section.
abbrev pub passes : Section → Registration → Bool
passes s inherits = true
passes s (overrides t calls_super changes) = not (same_section s t) || calls_super

abbrev pub Passes : Section → Mixin → Type 0
Passes s m = passes s m.registration ≡ true

abbrev pub has_field : String → Fields → Bool
has_field k caps = is_some (get_field k caps)

-- The key that a change sets.
abbrev pub key_of : Change → String
key_of (sets key v) = key
key_of (sets_file_operation key) = "file_operations"

abbrev pub sets_key : String → List Change → Bool
sets_key k [] = false
sets_key k (c ∷ cs) = str_eq (key_of c) k || sets_key k cs

-- Whether a mixin sets a key of a section.
abbrev pub sets_in : Section → String → Registration → Bool
sets_in s k inherits = false
sets_in s k (overrides t calls_super changes) = same_section s t && sets_key k changes

get_field-set_field :
    (k j : String) (v : Value) (fs : Fields)
    → get_field j (set_field k v fs) ≡ (if str_eq k j then some v else get_field j fs)
unfolding get_field set_field
get_field-set_field k j v end = refl
get_field-set_field k j v (field i w fs) =
    ground (arith, eq_iff k j, eq_iff i k, eq_iff i j, get_field-set_field k j v fs)

has_field-change :
    (k : String) (c : Change) (caps : Fields)
    → has_field k (change c caps) ≡ (str_eq (key_of c) k || has_field k caps)
unfolding change
has_field-change k (sets key v) caps = ground (arith, get_field-set_field key k v caps)
has_field-change k (sets_file_operation key) caps =
    let old = file_operations (get_field "file_operations" caps) in
    ground (
      arith,
      get_field-set_field "file_operations" k (object (set_field key (boolean true) old)) caps,
    )

has_field-change_all :
    (k : String) (cs : List Change) (caps : Fields)
    → has_field k (change_all cs caps) ≡ (sets_key k cs || has_field k caps)
unfolding change_all
has_field-change_all k [] caps = refl
has_field-change_all k (c ∷ cs) caps =
    ground (arith, has_field-change_all k cs (change c caps), has_field-change k c caps)

-- What a chain has in a section: `sets_key` of the mixins up to the first that leaves out the call
-- of the next class.
abbrev pub registers : Section → String → List Mixin → Bool
registers s k [] = false
registers s k (m ∷ ms) = sets_in s k m.registration || (passes s m.registration && registers s k ms)

has_field-registered :
    (s : Section) (k : String) (r : Registration) (caps : Fields)
    → has_field k (registered s r caps end) ≡ (sets_in s k r || (passes s r && has_field k caps))
unfolding get_field
has_field-registered s k inherits caps = refl
has_field-registered s k (overrides t true changes) caps =
    ground (arith, has_field-change_all k changes caps)
has_field-registered s k (overrides t false changes) caps =
    ground (arith, has_field-change_all k changes end)

-- A client advertises a key of a section just if one of its mixins sets it and no mixin before
-- that one leaves out the call of the next class.
pub has_field-register_section :
    (s : Section) (k : String) (ms : List Mixin)
    → has_field k (register_section s ms end) ≡ registers s k ms
unfolding register_section get_field
has_field-register_section s k [] = refl
has_field-register_section s k (m ∷ ms) =
    has_field-registered s k m.registration (register_section s ms end)
    ∙ ap (λ b. sets_in s k m.registration || (passes s m.registration && b))
        (has_field-register_section s k ms)
