-- ===== src/Document.antt =====
-- client/document_state.py: the states of the open documents and their reference counts.
-- Versions are natural numbers: the client starts each at 0 and only adds to it. The part of
-- `open` before its first `await` and the part after its task group are functions of their own,
-- since other calls may run between them.
pub mod Counts
pub mod Holders
pub mod Failure
pub mod Updates
pub mod Tests
use lsp_client.Base.{
  ℕ, ◌+◌, String, Bool, true, false, ◌&&◌, not, Option, none, some, List, [], ◌∷◌, ◌++◌,
  if◌then◌else◌, is_some,
}
use lsp_client.Base.Int.{ℤ, pos, ◌+ℤ◌, ◌-ℤ◌, is_nonpos}
use lsp_client.Base.Dict.{Dict, lookup, member, insert, remove, update}
use lsp_client.Base.Exec.{Result, ok, err}
use lsp_client.Host.{Text, Error, value_error}

pub record DocumentState : Type 0 where
  pub content : Text
  pub version : ℕ
  pub encoding : String

pub record DocumentStateManager : Type 0 where
  pub states : Dict DocumentState
  pub ref_counts : Dict ℤ

abbrev pub new_manager : DocumentStateManager
new_manager = record { states = []; ref_counts = [] }

-- `counter[uri]`: a missing key counts 0
abbrev pub stored : Option ℤ → ℤ
stored none = pos 0
stored (some n) = n

abbrev pub count : String → Dict ℤ → ℤ
count uri c = stored (lookup uri c)

-- `Counter.update` and `Counter.subtract` of a list
unfoldable pub tally : List String → Dict ℤ → Dict ℤ
tally [] c = c
tally (u ∷ us) c = tally us (insert u (count u c +ℤ pos 1) c)

unfoldable pub subtract : List String → Dict ℤ → Dict ℤ
subtract [] c = c
subtract (u ∷ us) c = subtract us (insert u (count u c -ℤ pos 1) c)

-- `[uri for uri in uris if uri not in self._states]`
unfoldable pub missing : List String → Dict DocumentState → List String
missing [] d = []
missing (u ∷ us) d = if member u d then missing us d else u ∷ missing us d

-- Up to the first `await`: the new URIs, with every request counted.
unfoldable pub open_begin : List String → DocumentStateManager → List String × DocumentStateManager
open_begin uris m = (missing uris m.states, record m { ref_counts = tally uris m.ref_counts })

-- The text and encoding that reading and decoding a URI gave, or the exception.
abbrev pub Reader : Type 0
Reader = String → Result Error (Text × String)

abbrev pub fresh_state : Text × String → DocumentState
fresh_state r = record { content = r.0; version = 0; encoding = r.1 }

-- The task group: one exception makes the whole group raise.
unfoldable pub read_all :
    Reader → List String → Dict DocumentState → Result Error (Dict DocumentState)
read_all read [] acc = ok acc
read_all read (u ∷ us) acc = elim (read u) [
  | ok r ↦ read_all read us (insert u (fresh_state r) acc)
  | err e ↦ err e
]

-- `self._states.update(new_states)`
unfoldable pub open_finish : Dict DocumentState → DocumentStateManager → DocumentStateManager
open_finish new_states m = record m { states = update m.states new_states }

abbrev pub finish :
    Result Error (Dict DocumentState)
    → DocumentStateManager
    → Result Error (Dict DocumentState) × DocumentStateManager
finish (ok new_states) m = (ok new_states, open_finish new_states m)
finish (err e) m = (err e, m)

-- What follows `if not new_uris: return {}`
unfoldable pub open_rest :
    Reader
    → List String
    → DocumentStateManager
    → Result Error (Dict DocumentState) × DocumentStateManager
open_rest read [] m = (ok [], m)
open_rest read (u ∷ us) m = finish (read_all read (u ∷ us) []) m

-- `open`, with nothing else running meanwhile.
unfoldable pub open_docs :
    Reader
    → List String
    → DocumentStateManager
    → Result Error (Dict DocumentState) × DocumentStateManager
unfolding open_begin open_rest
open_docs read uris m = let begun = open_begin uris m in open_rest read begun.0 begun.1

-- One round of the loop of `close`, with the URIs closed so far.
unfoldable pub close_one :
    String → DocumentStateManager → List String → DocumentStateManager × List String
close_one u m closed =
    let dropped : DocumentStateManager = record m { ref_counts = remove u m.ref_counts } in
    let gone : DocumentStateManager = record dropped { states = remove u m.states } in
    let r : DocumentStateManager × List String =
      if is_nonpos (count u m.ref_counts)
      then (if member u m.states then (gone, closed ++ u ∷ []) else (dropped, closed))
      else (m, closed) in
    r

unfoldable pub close_loop :
    List String → DocumentStateManager → List String → DocumentStateManager × List String
close_loop [] m closed = (m, closed)
close_loop (u ∷ us) m closed = let next = close_one u m closed in close_loop us next.0 next.1

unfoldable pub close_docs : List String → DocumentStateManager → DocumentStateManager × List String
unfolding close_loop
close_docs uris m = close_loop uris (record m { ref_counts = subtract uris m.ref_counts }) []

unfoldable pub register :
    String → Text → ℕ → String → DocumentStateManager → Option DocumentState × DocumentStateManager
register uri content version encoding m =
    let state : DocumentState = record {
      content = content;
      version = version;
      encoding = encoding;
    } in
    if member uri m.states then (none, m) else (
      some state,
      record { states = insert uri state m.states; ref_counts = insert uri (pos 1) m.ref_counts },
    )

abbrev pub unregister_found :
    String
    → Option DocumentState
    → DocumentStateManager
    → Option DocumentState × DocumentStateManager
unregister_found uri none m = (none, m)
unregister_found uri (some state) m = (
  some state,
  record {
    states = remove uri m.states;
    ref_counts = if member uri m.ref_counts then remove uri m.ref_counts else m.ref_counts;
  },
)

unfoldable pub unregister :
    String → DocumentStateManager → Option DocumentState × DocumentStateManager
unregister uri m = unregister_found uri (lookup uri m.states) m

unfoldable pub get_version : String → DocumentStateManager → Option ℕ
get_version uri m = elim (lookup uri m.states) [ none ↦ none | some state ↦ some state.version ]

unfoldable pub get_content : String → DocumentStateManager → Option Text
get_content uri m = elim (lookup uri m.states) [ none ↦ none | some state ↦ some state.content ]

unfoldable pub get_encoding : String → String → DocumentStateManager → String
get_encoding uri default m = elim (lookup uri m.states) [
  | none ↦ default
  | some state ↦ state.encoding
]

unfoldable pub increment_version : String → DocumentStateManager → Option ℕ × DocumentStateManager
increment_version uri m = elim (lookup uri m.states) [
  | none ↦ (none, m)
  | some state ↦ (
    some (state.version + 1),
    record m { states = insert uri (record state { version = state.version + 1 }) m.states },
  )
]

unfoldable pub update_content :
    String → Text → DocumentStateManager → Option ℕ × DocumentStateManager
update_content uri content m = elim (lookup uri m.states) [
  | none ↦ (none, m)
  | some state ↦ (
    some (state.version + 1),
    record m {
      states =
          insert uri (record state { content = content; version = state.version + 1 }) m.states;
    },
  )
]
