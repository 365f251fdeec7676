-- ===== src/Capability/Advertised.antt =====
-- What the mixins of a class come to: which capabilities are lost behind a mixin that leaves out
-- the call of the next class, and what is asserted of the server.
use lsp_client.Base.{
  ◌≡◌, refl, sym, ap, subst, ◌∙◌, ◌⊎◌, inl, inr, String, Bool, true, false, ◌&&◌, ◌||◌, not, List,
  [], ◌∷◌, ◌++◌, contains, arith, eq_refl, Bool-cases,
}
use lsp_client.Base.Exec.{Result, ok, err}
use lsp_client.Config.{Fields, end}
use lsp_client.Capability.{
  Section, same_section, Registration, inherits, overrides, Mixin, registered, register_section,
  assert_all, and_then, check_server_capability,
}
use lsp_client.Capability.Chain.{passes, has_field, sets_in, registers, has_field-register_section}

cut_registered :
    (s : Section) (r : Registration) (caps others : Fields)
    → passes s r ≡ false
    → registered s r caps end ≡ registered s r others end
cut_registered s inherits caps others h = absurd cc
cut_registered s (overrides t true changes) caps others h = ground arith
cut_registered s (overrides t false changes) caps others h = ground arith

-- The classes behind a mixin that leaves out the call of the next class do not change the
-- section, whatever they register.
pub register_section-cut :
    (s : Section) (before : List Mixin) (m : Mixin) (after others : List Mixin)
    → passes s m.registration ≡ false
    → register_section s (before ++ m ∷ after) end ≡ register_section s (before ++ m ∷ others) end
unfolding register_section
register_section-cut s [] m after others h =
    cut_registered s m.registration (register_section s after end) (register_section s others end) h
register_section-cut s (b ∷ before) m after others h =
    ap (λ (caps : Fields). registered s b.registration caps end)
      (register_section-cut s before m after others h)

-- A mixin that registers nothing in a section.
abbrev pub is_silent : Section → Registration → Bool
is_silent s inherits = true
is_silent s (overrides t calls_super changes) = not (same_section s t)

abbrev pub all_silent : Section → List Mixin → Bool
all_silent s [] = true
all_silent s (m ∷ ms) = is_silent s m.registration && all_silent s ms

-- No mixin that registers in the section is behind one that leaves out the call.
abbrev pub cuts_nothing : Section → List Mixin → Bool
cuts_nothing s [] = true
cuts_nothing s (m ∷ ms) = (passes s m.registration || all_silent s ms) && cuts_nothing s ms

-- Whether a mixin sets a key of a section.
abbrev pub sets_any : Section → String → List Mixin → Bool
sets_any s k [] = false
sets_any s k (m ∷ ms) = sets_in s k m.registration || sets_any s k ms

sets_in-silent :
    (s : Section) (k : String) (r : Registration) → is_silent s r ≡ true → sets_in s k r ≡ false
sets_in-silent s k inherits h = refl
sets_in-silent s k (overrides t b cs) h = ground arith

sets_any-silent :
    (s : Section) (k : String) (ms : List Mixin) → all_silent s ms ≡ true → sets_any s k ms ≡ false
sets_any-silent s k [] h = refl
sets_any-silent s k (m ∷ ms) h =
    ground (arith, sets_in-silent s k m.registration, sets_any-silent s k ms)

registers-any :
    (s : Section) (k : String) (ms : List Mixin)
    → cuts_nothing s ms ≡ true
    → registers s k ms ≡ sets_any s k ms
registers-any s k [] h = refl
registers-any s k (m ∷ ms) h = ground (arith, registers-any s k ms, sets_any-silent s k ms)

-- Where no mixin that registers in a section is behind one that leaves out the call, what a client
-- advertises in the section is what one of its mixins sets.
pub has_field-cuts_nothing :
    (s : Section) (k : String) (ms : List Mixin)
    → cuts_nothing s ms ≡ true
    → has_field k (register_section s ms end) ≡ sets_any s k ms
has_field-cuts_nothing s k ms h = has_field-register_section s k ms ∙ registers-any s k ms h

-- Whether a server provides all that the mixins assert.
abbrev pub provides_all : (String → Bool) → List String → Bool
provides_all provides [] = true
provides_all provides (p ∷ ps) = provides p && provides_all provides ps

-- What the mixins assert, in the order of the assertions.
abbrev pub required_of : List Mixin → List String
required_of [] = []
required_of (m ∷ ms) = required_of ms ++ m.required

-- All attributes are provided, or one of them is named that is not.
abbrev pub Verdict : (String → Bool) → List String → Result String (Unit {0}) → Type 0
Verdict provides ps r =
    ((r ≡ ok tt) × (provides_all provides ps ≡ true))
    ⊎ ((p : String) × (r ≡ err p)
        × (provides p ≡ false)
        × (contains p ps ≡ true)
        × (provides_all provides ps ≡ false))

Verdict-later :
    (provides : String → Bool) (p : String) (ps : List String) {r : Result String (Unit {0})}
    → provides p ≡ true
    → Verdict provides ps r
    → Verdict provides (p ∷ ps) r
Verdict-later provides p ps h (inl (e, b)) = inl (e, ground arith)
Verdict-later provides p ps h (inr (q, e, n, c, b)) = inr (q, e, n, ground arith, ground arith)

assert_all-Verdict :
    (provides : String → Bool) (ps : List String) → Verdict provides ps (assert_all provides ps)
unfolding assert_all
assert_all-Verdict provides [] = inl (refl, refl)
assert_all-Verdict provides (p ∷ ps) = elim (Bool-cases (provides p)) [
  | inl h ↦
      let e : assert_all provides (p ∷ ps) ≡ assert_all provides ps = ground arith in
      subst (Verdict provides (p ∷ ps)) (sym e)
        (Verdict-later provides p ps h (assert_all-Verdict provides ps))
  | inr h ↦ inr (p, ground arith, h, ground (arith, eq_refl p), ground arith)
]

assert_all-append :
    (provides : String → Bool) (ps qs : List String)
    → assert_all provides (ps ++ qs) ≡ and_then (assert_all provides ps) (assert_all provides qs)
unfolding assert_all
assert_all-append provides [] qs = refl
assert_all-append provides (p ∷ ps) qs = ground (arith, assert_all-append provides ps qs)

check_server_capability-assert_all :
    (ms : List Mixin) (provides : String → Bool)
    → check_server_capability ms provides ≡ assert_all provides (required_of ms)
unfolding check_server_capability assert_all
check_server_capability-assert_all [] provides = refl
check_server_capability-assert_all (m ∷ ms) provides =
    ap (λ r. and_then r (assert_all provides m.required))
      (check_server_capability-assert_all ms provides)
    ∙ sym (assert_all-append provides (required_of ms) m.required)

-- The check of a server raises nothing just if the server provides all that the mixins assert, and
-- otherwise fails at an attribute that is asserted and not provided.
pub check_server_capability-Verdict :
    (ms : List Mixin) (provides : String → Bool)
    → Verdict provides (required_of ms) (check_server_capability ms provides)
check_server_capability-Verdict ms provides =
    rw (check_server_capability-assert_all ms provides)
      (assert_all-Verdict provides (required_of ms))
