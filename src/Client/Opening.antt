-- ===== src/Client/Opening.antt =====
-- What the notifications of newly opened and of closed documents do to the server's documents.
use lsp_client.Base.{
  ◌≡◌, refl, ap, ◌∙◌, String, none, List, [], ◌∷◌, ◌++◌, if◌then◌else◌, arith, eq_iff, str_eq,
  contains, inl, inr, ◌⊎◌,
}
use lsp_client.Base.Dict.{
  Dict, lookup, member, insert, remove, update, lookup-insert, lookup-remove,
}
use lsp_client.Base.Exec.{Result, ok, err}
use mathlib.Core.List.{append-nil}
use lsp_client.Host.{Host, Text, Error, timeout_error}
use lsp_client.Document.{
  DocumentState, DocumentStateManager, Reader, open_rest, finish, read_all, fresh_state, missing,
}
use lsp_client.Client.{
  Notification, did_open, did_close, Settings, World, notify_opened, notify_closed,
}
use lsp_client.Base.{All, subst, Bool-cases}
use lsp_client.Base.Exec.{ok_injective}
use mathlib.Core.List.{append_assoc}
use lsp_client.Client.Mirror.{ServerDocs, receive, replay, shown, IsStable}

-- The notifications of the two task groups.
abbrev pub opened_notes : String → Dict DocumentState → List Notification
opened_notes language [] = []
opened_notes language ((uri, s) ∷ rest) =
    did_open uri language 0 s.content ∷ opened_notes language rest

abbrev pub closed_notes : List String → List Notification
closed_notes [] = []
closed_notes (uri ∷ rest) = did_close uri ∷ closed_notes rest

pub replay-append_all :
    (ns ms : List Notification) (d : ServerDocs) → replay (ns ++ ms) d ≡ replay ms (replay ns d)
unfolding replay
replay-append_all [] ms d = refl
replay-append_all (n ∷ ns) ms d = replay-append_all ns ms (receive n d)

-- The server's documents are the states.
abbrev pub Shows : ServerDocs → Dict DocumentState → Type 0
Shows d states = (u : String) → lookup u d ≡ shown (lookup u states)

abbrev pub IsNew : (h : Host) → Settings → String × DocumentState → Type 0
IsNew h c e = IsStable h c e.0 × (e.1.version ≡ 0)

pub Shows-opened :
    (h : Host) (c : Settings) (new : Dict DocumentState) (d : ServerDocs)
    (states : Dict DocumentState)
    → All (IsNew h c) new
    → Shows d states
    → Shows (replay (opened_notes c.language_id new) d) (update states new)
unfolding replay update
Shows-opened h c [] d states a m = m
Shows-opened h c ((uri, s) ∷ new) d states a m =
    Shows-opened h c new (insert uri (0, s.content) d) (insert uri s states) a.1 λ u.
      ground (arith, m u, a.0, lookup-insert uri u (0, s.content) d, lookup-insert uri u s states)

pub lookup-closed :
    (u : String) (l : List String) (d : ServerDocs)
    → lookup u (replay (closed_notes l) d) ≡ (if contains u l then none else lookup u d)
unfolding replay
lookup-closed u [] d = refl
lookup-closed u (v ∷ l) d =
    ground (arith, lookup-closed u l (remove v d), lookup-remove v u d, eq_iff u v, eq_iff v u)

-- All notifications are sent, or one of them is not in time, which is raised.
abbrev pub Tells :
    {h : Host} → World h → List Notification → Result Error (Unit {0}) × World h → Type 0
Tells w ns r = (r ≡ (ok tt, record w { sent = w.sent ++ ns })) ⊎ (r.0 ≡ err timeout_error)

Tells-first :
    {h : Host} (n : Notification) (w : World h) (ns : List Notification)
    (r : Result Error (Unit {0}) × World h)
    → Tells (record w { sent = w.sent ++ n ∷ [] }) ns r
    → Tells w (n ∷ ns) r
Tells-first n w ns r (inl e) = inl (
    e
    ∙ ap (λ (l : List Notification). (ok tt, record w { sent = l }))
        (append_assoc w.sent (n ∷ []) ns))
Tells-first n w ns r (inr e) = inr e

module _ (h : Host) (c : Settings) where
  pub notify_opened-Tells :
      (new : Dict DocumentState) (w : World h)
      → All (IsNew h c) new
      → Tells w (opened_notes c.language_id new) (notify_opened h c new w)
  unfolding notify_opened
  notify_opened-Tells [] w a = inl (ground (arith, append-nil w.sent))
  notify_opened-Tells ((uri, s) ∷ new) w a =
      let n = did_open uri c.language_id 0 s.content in
      elim (Bool-cases (c.delivers w.sent n)) [
        | inr late ↦ inr (rw (a.0.0, notify_opened, late) refl)
        | inl sent ↦
            rw (a.0.0, notify_opened, sent)
              (Tells-first n w _ _
                (notify_opened-Tells new (record w { sent = w.sent ++ n ∷ [] }) a.1))
      ]

  pub notify_closed-Tells :
      (l : List String) (w : World h)
      → All (IsStable h c) l
      → Tells w (closed_notes l) (notify_closed h c l w)
  unfolding notify_closed
  notify_closed-Tells [] w a = inl (ground (arith, append-nil w.sent))
  notify_closed-Tells (uri ∷ l) w a =
      let n = did_close uri in
      elim (Bool-cases (c.delivers w.sent n)) [
        | inr late ↦ inr (rw (a.0, notify_closed, late) refl)
        | inl sent ↦
            rw (a.0, notify_closed, sent)
              (Tells-first n w _ _
                (notify_closed-Tells l (record w { sent = w.sent ++ n ∷ [] }) a.1))
      ]

  pub IsNew-insert :
      (uri : String) (r : Text × String) (d : Dict DocumentState)
      → IsStable h c uri
      → All (IsNew h c) d
      → All (IsNew h c) (insert uri (fresh_state r) d)
  unfolding insert
  IsNew-insert uri r [] s a = ((s, refl), tt)
  IsNew-insert uri r ((v, x) ∷ d) s a = elim (Bool-cases (str_eq v uri)) [
    | inl same ↦ rw same ((s, refl), a.1)
    | inr other ↦ rw other (a.0, IsNew-insert uri r d s a.1)
  ]

  pub IsNew-read_all :
      (read : Reader) (uris : List String) (acc d : Dict DocumentState)
      → All (IsStable h c) uris
      → All (IsNew h c) acc
      → read_all read uris acc ≡ ok d
      → All (IsNew h c) d
  unfolding read_all
  IsNew-read_all read [] acc d s a e = subst (All (IsNew h c)) (ok_injective e) a
  IsNew-read_all read (u ∷ us) acc d s a e = go (read u) e (λ x.
      IsNew-read_all read us (insert u (fresh_state x) acc) d s.1 (IsNew-insert u x acc s.0 a))
    where
      go :
          (r : Result Error (Text × String))
          → (elim r [ ok x ↦ read_all read us (insert u (fresh_state x) acc) | err x ↦ err x ])
            ≡ ok d
          → ((x : Text × String)
              → read_all read us (insert u (fresh_state x) acc) ≡ ok d
              → All (IsNew h c) d)
          → All (IsNew h c) d
      go (ok x) f ih = ih x f
      go (err x) f ih = absurd (cc)

  pub All-missing :
      (uris : List String) (d : Dict DocumentState)
      → All (IsStable h c) uris
      → All (IsStable h c) (missing uris d)
  unfolding missing
  All-missing [] d a = tt
  All-missing (u ∷ us) d a = elim (Bool-cases (member u d)) [
    | inl old ↦ rw old (All-missing us d a.1)
    | inr new ↦ rw new (a.0, All-missing us d a.1)
  ]

  pub open_rest-IsNew :
      (read : Reader) (uris : List String) (m m' : DocumentStateManager) (new : Dict DocumentState)
      → All (IsStable h c) uris
      → open_rest read uris m ≡ (ok new, m')
      → All (IsNew h c) new
  unfolding open_rest
  open_rest-IsNew read [] m m' new s e =
      subst (All (IsNew h c)) (ok_injective {E = Error} (ap (λ r. r.0) e)) tt
  open_rest-IsNew read (v ∷ vs) m m' new s e = go (read_all read (v ∷ vs) []) refl e
    where
      go :
          (r : Result Error (Dict DocumentState))
          → read_all read (v ∷ vs) [] ≡ r
          → finish r m ≡ (ok new, m')
          → All (IsNew h c) new
      go (ok d) k f =
          subst (All (IsNew h c)) (ok_injective {E = Error} (ap (λ r. r.0) f))
            (IsNew-read_all read (v ∷ vs) [] d s tt k)
      go (err x) k f = absurd (cc)
