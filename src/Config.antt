-- ===== src/Config.antt =====
-- utils/config.py: configuration values, their merge, and lookup by scope and section. A JSON
-- object keeps its keys in insertion order.
pub mod Merge
pub mod Get
pub mod Tests
use Prim.Native.Char.{Char, code}
use Prim.Native.String
use lsp_client.Base.{
  ℕ, zero, suc, String, Bool, true, false, Option, none, some, List, [], ◌∷◌, ◌++◌, ◌==◌,
  if◌then◌else◌, str_eq, is_some,
}

mutual
  pub data Value : Type 0 where
    null : Value
    boolean : Bool → Value
    number : ℕ → Value
    text : String → Value
    array : Items → Value
    object : Fields → Value

  pub data Items : Type 0 where
    nil : Items
    cons : Value → Items → Items

  pub data Fields : Type 0 where
    end : Fields
    field : String → Value → Fields → Fields

-- `result.get(key)`, and `result[key] = value`
unfoldable pub get_field : String → Fields → Option Value
get_field k end = none
get_field k (field j v fs) = if str_eq j k then some v else get_field k fs

unfoldable pub set_field : String → Value → Fields → Fields
set_field k v end = field k v end
set_field k v (field j w fs) = if str_eq j k then field k v fs else field j w (set_field k v fs)

-- What `deep_merge` stores at a key of `update`, from what the result has there. The merge of two
-- objects is its last argument.
abbrev pub merged : Option Value → Value → (Fields → Fields) → Value
merged (some (object base)) (object update) merge = object (merge base)
merged _ value merge = value

-- `deep_merge(base, update)`: the loop over the items of `update`
unfoldable mutual
  pub merge_into : Fields → Value → Fields
  merge_into base null = base
  merge_into base (boolean b) = base
  merge_into base (number n) = base
  merge_into base (text t) = base
  merge_into base (array xs) = base
  merge_into base (object update) = deep_merge base update

  pub deep_merge : Fields → Fields → Fields
  deep_merge result end = result
  deep_merge result (field key value rest) =
      deep_merge
        (set_field key (merged (get_field key result) value (λ base. merge_into base value)) result)
        rest

-- `d[key]`; a missing key, and a value that is no object, are the errors that `deep_get` catches
unfoldable pub getitem : Value → String → Option Value
getitem (object fs) key = get_field key fs
getitem _ key = none

-- `reduce(getitem, keys, d)`, with `None` for the two errors
unfoldable pub deep_get : Value → List String → Value
deep_get v [] = v
deep_get v (k ∷ ks) = elim (getitem v k) [ none ↦ null | some w ↦ deep_get w ks ]

abbrev pub push : Char → List String → List String
push c [] = (String.◌∷◌ c "") ∷ []
push c (s ∷ ss) = (String.◌∷◌ c s) ∷ ss

-- `section.split(".")`
unfoldable pub split_dots : String → List String
split_dots String.[] = "" ∷ []
split_dots (String.◌∷◌ c cs) =
    let rest = split_dots cs in if code c == b'.' then "" ∷ rest else push c rest

pub record ScopeConfig : Type 0 where
  pub pattern : String
  pub config : Fields

-- A callback is known by a number.
pub record ConfigurationMap : Type 0 where
  pub global_config : Fields
  pub scoped_configs : List ScopeConfig
  pub on_change_callbacks : List ℕ

abbrev pub new_config_map : ConfigurationMap
new_config_map = record { global_config = end; scoped_configs = []; on_change_callbacks = [] }

unfoldable pub on_change : ℕ → ConfigurationMap → ConfigurationMap
on_change callback m = record m { on_change_callbacks = m.on_change_callbacks ++ callback ∷ [] }

-- `_notify_change`: each callback is called with the map as it is now.
abbrev pub notify_change : ConfigurationMap → List (ℕ × ConfigurationMap)
notify_change m = calls m.on_change_callbacks
  where
    calls : List ℕ → List (ℕ × ConfigurationMap)
    calls [] = []
    calls (f ∷ fs) = (f, m) ∷ calls fs

-- The new map, and the calls that it makes.
unfoldable pub update_global :
    Fields → Bool → ConfigurationMap → ConfigurationMap × List (ℕ × ConfigurationMap)
update_global config merge m =
    let m' : ConfigurationMap = record m {
      global_config = if merge then deep_merge m.global_config config else config;
    } in
    (m', notify_change m')

unfoldable pub add_scope :
    String → Fields → ConfigurationMap → ConfigurationMap × List (ℕ × ConfigurationMap)
add_scope pattern config m =
    let s : ScopeConfig = record { pattern = pattern; config = config } in
    let m' : ConfigurationMap = record m { scoped_configs = m.scoped_configs ++ s ∷ [] } in
    (m', notify_change m')

-- `not section`
abbrev pub is_empty : Option String → Bool
is_empty none = true
is_empty (some s) = str_eq s ""

abbrev pub text_of : Option String → String
text_of none = ""
text_of (some s) = s

unfoldable pub get_section : Fields → Option String → Value
get_section config section =
    if is_empty section
    then object config
    else deep_get (object config) (split_dots (text_of section))

-- `from_local_uri(uri).as_posix()` and `fnmatch.fnmatch` come from the Python library.
module _ (posix_path : String → String) (fnmatch : String → String → Bool) where
  unfoldable pub merge_scopes : String → List ScopeConfig → Fields → Fields
  merge_scopes path [] config = config
  merge_scopes path (s ∷ ss) config =
      merge_scopes path ss (if fnmatch path s.pattern then deep_merge config s.config else config)

  unfoldable pub get : Option String → Option String → ConfigurationMap → Value
  unfolding get_section merge_scopes
  get scope_uri section m =
      if is_empty scope_uri
      then get_section m.global_config section
      else get_section
          (merge_scopes (posix_path (text_of scope_uri)) m.scoped_configs m.global_config) section
