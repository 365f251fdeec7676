-- ===== src/Document/Updates.antt =====
-- `register`, `unregister` and the two operations that step a version.
use lsp_client.Base.{
  ℕ, ◌+◌, ◌≡◌, refl, String, Option, none, some, List, [], ◌∷◌, arith, eq_iff, eq_refl, str_eq,
  if◌then◌else◌, length,
}
use lsp_client.Base.Int.{pos}
use lsp_client.Base.Dict.{lookup, lookup-insert, lookup-remove}
use lsp_client.Host.{Text}
use lsp_client.Document.{
  DocumentState, DocumentStateManager, get_version, increment_version, update_content, register,
  unregister, unregister_found,
}
use lsp_client.Document.Counts.{occ}
use lsp_client.Document.Holders.{Holds}

-- The state that an update leaves.
abbrev pub bumped : Text → Option DocumentState → Option DocumentState
bumped content none = none
bumped content (some s) = some (record s { content = content; version = s.version + 1 })

-- `update_content` replaces the text, steps the version and keeps the encoding of an open document,
-- leaves every other document and all counts alone, and returns the version that it stored.
pub update_content_lem :
    (uri : String) (content : Text) (m : DocumentStateManager)
    → ((u : String)
        → lookup u (update_content uri content m).1.states
          ≡ (if str_eq uri u then bumped content (lookup u m.states) else lookup u m.states))
      × ((update_content uri content m).1.ref_counts ≡ m.ref_counts)
      × ((update_content uri content m).0 ≡ get_version uri (update_content uri content m).1)
unfolding update_content get_version
update_content_lem uri content m = go (lookup uri m.states) refl
  where
    go :
        (o : Option DocumentState)
        → lookup uri m.states ≡ o
        → ((u : String)
            → lookup u (update_content uri content m).1.states
              ≡ (if str_eq uri u then bumped content (lookup u m.states) else lookup u m.states))
          × ((update_content uri content m).1.ref_counts ≡ m.ref_counts)
          × ((update_content uri content m).0 ≡ get_version uri (update_content uri content m).1)
    go none e = (λ u. ground (arith, eq_iff uri u), ground arith, ground arith)
    go (some s) e =
        let s' : DocumentState = record s { content = content; version = s.version + 1 } in
        (
          λ u. ground (arith, eq_iff uri u, lookup-insert uri u s' m.states),
          ground arith,
          ground (arith, lookup-insert uri uri s' m.states, eq_refl uri),
        )

-- `increment_version` is an update with the text that the document has.
pub increment_version-eq_update :
    (uri : String) (m : DocumentStateManager) (s : DocumentState)
    → lookup uri m.states ≡ some s
    → increment_version uri m ≡ update_content uri s.content m
unfolding increment_version update_content
increment_version-eq_update uri m s h = ground arith

-- Updates in a row.
pub update_all : String → List Text → DocumentStateManager → DocumentStateManager
update_all uri [] m = m
update_all uri (c ∷ cs) m = update_all uri cs (update_content uri c m).1

-- After any number of updates an open document has a version higher by that number.
pub update_all-version :
    (uri : String) (cs : List Text) (m : DocumentStateManager) (v : ℕ)
    → get_version uri m ≡ some v
    → get_version uri (update_all uri cs m) ≡ some (v + length cs)
unfolding update_all get_version
update_all-version uri [] m v h = ground arith
update_all-version uri (c ∷ cs) m v h = ground (
  arith,
  (update_content_lem uri c m).0 uri,
  eq_refl uri,
  update_all-version uri cs (update_content uri c m).1 (v + 1),
)

-- Registering a document that nobody holds makes it a document with one holder, at the version
-- given.
pub register-Holds :
    (uri encoding : String) (content : Text) (version : ℕ) (held : List String)
    (m : DocumentStateManager)
    → Holds m held
    → occ uri held ≡ 0
    → Holds (register uri content version encoding m).1 (uri ∷ held)
      × (get_version uri (register uri content version encoding m).1 ≡ some version)
unfolding register get_version occ
register-Holds uri encoding content version held m h free =
    let s : DocumentState = record { content = content; version = version; encoding = encoding } in
    (
      record {
        counts = λ u. ground (
          arith,
          h.counts u,
          h.states uri,
          lookup-insert uri u (pos 1) m.ref_counts,
          eq_iff uri u,
        );
        states = λ u.
            ground (arith, h.states u, h.states uri, lookup-insert uri u s m.states, eq_iff uri u);
      },
      ground (arith, h.states uri, lookup-insert uri uri s m.states, eq_refl uri),
    )

-- The holders other than those of one URI.
unfoldable pub except : String → List String → List String
except u [] = []
except u (v ∷ vs) = if str_eq u v then except u vs else v ∷ except u vs

pub occ-except :
    (u v : String) (l : List String) → occ v (except u l) ≡ (if str_eq u v then 0 else occ v l)
unfolding occ except
occ-except u v [] = ground arith
occ-except u v (w ∷ l) = ground (arith, occ-except u v l, eq_iff u w, eq_iff w v, eq_iff u v)

-- Unregistering takes every holder of the document away, whatever their number, and no other.
pub unregister-Holds :
    (uri : String) (held : List String) (m : DocumentStateManager)
    → Holds m held
    → Holds (unregister uri m).1 (except uri held)
unfolding unregister
unregister-Holds uri held m h = go (lookup uri m.states) refl
  where
    go :
        (o : Option DocumentState)
        → lookup uri m.states ≡ o
        → Holds (unregister_found uri o m).1 (except uri held)
    go none e = record {
      counts = λ u. ground (arith, h.counts u, h.states uri, occ-except uri u held, eq_iff uri u);
      states = λ u. ground (arith, h.states u, h.states uri, occ-except uri u held, eq_iff uri u);
    }
    go (some s) e = record {
      counts = λ u. ground (
        arith,
        h.counts u,
        h.counts uri,
        occ-except uri u held,
        eq_iff uri u,
        lookup-remove uri u m.ref_counts,
      );
      states = λ u.
          ground
            (arith, h.states u, occ-except uri u held, eq_iff uri u, lookup-remove uri u m.states);
    }
