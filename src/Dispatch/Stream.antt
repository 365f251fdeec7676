-- ===== src/Dispatch/Stream.antt =====
-- The packages that a server wrote are routed in the order in which it wrote them.
use lsp_client.Base.{
  ℕ, suc, ◌<◌, ◌≡◌, refl, ap, sym, subst, ◌∙◌, ◌⊎◌, inl, inr, Bool-cases, false, Bool, true, none,
  List, [], ◌∷◌, ◌++◌, map, length, All,
}
use Prim.Native.Nat.{◌^◌}
use mathlib.Core.List.{append_assoc, append-nil}
use lsp_client.Base.Exec.{ok, err}
use lsp_client.Framing.{closed, ByteStream, Json, write_raw_package, read_raw_package}
use lsp_client.Framing.Laws.{StreamLaws, JsonLaws, read-write_raw_package}
use lsp_client.Table.{Keys, Route, handle_package}
use lsp_client.Dispatch.{
  Dispatch, stopped, cancelled, route_first, caught, receive, with_message, dispatch_loop,
}

module _ (b : ByteStream) (j : Json) where
  -- What a server wrote, one package after the other.
  unfoldable pub written : List j.Package → List ℕ
  written [] = []
  written (p ∷ ps) = write_raw_package b j p ++ written ps

module _ (b : ByteStream) (j : Json) (keys : j.Package → Keys) (truthy : j.Package → Bool)
    (interrupted : List Route → Bool) where
  -- A package that the length of a header line can tell, and that Python takes for true.
  abbrev pub IsPackage : j.Package → Type 0
  IsPackage p = (length (j.dumps p) < 10 ^ 20) × (truthy p ≡ true)

  abbrev pub routes_of : List j.Package → List Route
  routes_of ps = map (λ p. handle_package (keys p)) ps

  -- The loop has routed the packages up to some point, in their order: all of them, and has then
  -- stopped, or those at which a task had raised, and was then cancelled.
  abbrev pub Routes : List Route → List j.Package → Dispatch → Type 0
  Routes started ps d =
      (read : List j.Package) × (rest : List j.Package) × (ps ≡ read ++ rest)
      × (d.routes ≡ routes_of read)
      × (((rest ≡ []) × (d.ending ≡ stopped))
          ⊎ ((interrupted (started ++ routes_of read) ≡ true) × (d.ending ≡ cancelled)))

  Routes-first :
      (started : List Route) (p : j.Package) (ps : List j.Package) (d : Dispatch)
      → Routes (started ++ handle_package (keys p) ∷ []) ps d
      → Routes started (p ∷ ps) (route_first (handle_package (keys p)) d)
  Routes-first started p ps d (read, rest, e, r, o) = (
    p ∷ read,
    rest,
    ap (λ l. p ∷ l) e,
    ap (λ l. handle_package (keys p) ∷ l) r,
    subst
        (λ l.
          ((rest ≡ []) × (d.ending ≡ stopped)) ⊎ ((interrupted l ≡ true) × (d.ending ≡ cancelled)))
        (append_assoc started (handle_package (keys p) ∷ []) (routes_of read)) o,
  )

  Routes-cancelled :
      (started : List Route) (ps : List j.Package)
      → interrupted started ≡ true
      → Routes started ps (record { routes = []; ending = cancelled })
  Routes-cancelled started ps h = ([], ps, refl, refl, inr (rw (append-nil started) h, refl))

  module _ (bl : StreamLaws b) (jl : JsonLaws j) where
    -- A package in front is routed if no task has raised, and the loop goes on just behind it.
    dispatch_loop-write :
        (n : ℕ) (started : List Route) (p : j.Package) (rest : List ℕ)
        → interrupted started ≡ false
        → IsPackage p
        → dispatch_loop b j keys truthy interrupted
            (suc n)
            started
            (bl.feed (write_raw_package b j p ++ rest))
          ≡ route_first (handle_package (keys p)) (
              dispatch_loop b j keys truthy interrupted n
                (started ++ handle_package (keys p) ∷ [])
                (bl.feed rest))
    unfolding dispatch_loop receive
    dispatch_loop-write n started p rest go_on h = rw go_on (
        ap
          (λ r.
            with_message b j keys truthy interrupted
              (λ q. dispatch_loop b j keys truthy interrupted n (started ++ q ∷ [])) (caught b j r))
          (read-write_raw_package b j bl jl p rest h.0)
        ∙ rw h.1 refl)

    receive-end : b.receive_until (bl.feed []) ≡ err closed → receive b j (bl.feed []) ≡ ok none
    unfolding receive read_raw_package
    receive-end e = rw e refl

    -- On a stream that ends behind the packages that a server wrote, each shorter than 10 ^ 20
    -- bytes and none of them empty, the loop routes the packages in their order: all of them, and
    -- then stops, unless one of the tasks that it has started raises, which cancels it behind the
    -- packages routed so far. The stream gives the bytes that it holds and raises its own exception
    -- where it has ended, and what JSON dumps it loads.
    pub dispatch_loop-written :
        (started : List Route) (ps : List j.Package)
        → b.receive_until (bl.feed []) ≡ err closed
        → All IsPackage ps
        → Routes started ps (
            dispatch_loop b j keys truthy interrupted
              (suc (length ps))
              started
              (bl.feed (written b j ps)))
    unfolding dispatch_loop written
    dispatch_loop-written started [] e h = elim (Bool-cases (interrupted started)) [
      | inl over ↦ rw over (Routes-cancelled started [] over)
      | inr go_on ↦ rw (go_on, receive-end e) ([], [], refl, refl, inl (refl, refl))
    ]
    dispatch_loop-written started (p ∷ ps) e h = elim (Bool-cases (interrupted started)) [
      | inl over ↦ rw over (Routes-cancelled started (p ∷ ps) over)
      | inr go_on ↦
          subst (Routes started (p ∷ ps))
            (sym (dispatch_loop-write (suc (length ps)) started p (written b j ps) go_on h.0))
            (Routes-first started p ps _
              (dispatch_loop-written (started ++ handle_package (keys p) ∷ []) ps e h.1))
    ]
