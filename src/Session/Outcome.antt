-- ===== src/Session/Outcome.antt =====
-- What a session comes to where something fails.
use lsp_client.Base.{◌≡◌, refl, ap, subst, inl, inr, String, true, [], ◌∷◌, ◌++◌}
use lsp_client.Base.Exec.{Result, ok, err, continue, ◌>>=◌, lift}
use lsp_client.Capability.{check_server_capability}
use lsp_client.Capability.Advertised.{
  Verdict, required_of, provides_all, check_server_capability-Verdict,
}
use lsp_client.Session.{
  Failure, request, State, Parameters, Session, InitializeResult, RawResponse, ask, tell,
  initialize, close, try_finally, response_deserialize, check, supported,
}

module _ {W E : Type 0} (p : Parameters W E) where
  -- If the pending requests do not complete in time, the session raises that, whatever its body
  -- returned or raised, and neither shuts the server down nor tells it to exit.
  pub try_finally-wait_fails :
      {A : Type 0} (body : Session W E A) (s t : State W) (r : Result (Failure E) A) (e : Failure E)
      (w : W)
      → body s ≡ (r, t)
      → p.wait t.world ≡ (err e, w)
      → try_finally body (close p) s ≡ (err e, record t { world = w })
  unfolding try_finally close ◌>>=◌
  try_finally-wait_fails body s t r e w b f = rw (b, f) refl

  -- With `__debug__`.
  abbrev verdict : InitializeResult → Session W E (Unit {0})
  verdict result s =
      continue (p.check_server_compatibility result.server_info)
        (λ u t. (supported p (check_server_capability p.mixins result.provides), t)) s

  check-verdict :
      (result : InitializeResult) (s : State W)
      → p.debug ≡ true
      → check p result s ≡ verdict result s
  unfolding lift ◌>>=◌
  check-verdict result s on = simp on refl

  checked :
      (result : InitializeResult) (f : State W → Result (Failure E) (Unit {0}) × State W)
      (s : State W)
      → p.debug ≡ true
      → (continue (check p result s).0 (λ u. f) (check p result s).1).0 ≡ ok tt
      → provides_all result.provides (required_of p.mixins) ≡ true
  unfolding lift
  checked result f s on h =
      compatible (p.check_server_compatibility result.server_info)
        (check_server_capability p.mixins result.provides)
        (check_server_capability-Verdict p.mixins result.provides)
        (subst (λ q. (continue q.0 (λ u. f) q.1).0 ≡ ok tt) (check-verdict result s on) h)
    where
      compatible :
          (r : Result (Failure E) (Unit {0})) (q : Result String (Unit {0}))
          → Verdict result.provides (required_of p.mixins) q
          → (continue
              (continue r (λ u t. (supported p q, t)) s).0
              (λ u. f)
              (continue r (λ u t. (supported p q, t)) s).1).0
            ≡ ok tt
          → provides_all result.provides (required_of p.mixins) ≡ true
      compatible (err e) q v h = absurd (cc)
      compatible (ok u) q (inl (k, b)) h = b
      compatible (ok u) q (inr (a, k, n, b, c)) h = absurd (cc)

  -- With assertions on, `initialize` returns only if the server answered to it with capabilities
  -- that provide all that the client's mixins assert.
  pub initialize-supported :
      (s : State W)
      → p.debug ≡ true
      → (initialize p s).0 ≡ ok tt
      → (raw : RawResponse) × (result : InitializeResult) × ((p.respond "initialize" s.world).0
          ≡ ok raw)
        × (response_deserialize p.to_initialize_result raw ≡ ok result)
        × (provides_all result.provides (required_of p.mixins) ≡ true)
  unfolding initialize ask lift ◌>>=◌
  initialize-supported s on h = go (p.respond "initialize" s.world) refl h
    where
      rest : InitializeResult → Session W E (Unit {0})
      rest result = check p result >>= λ u. tell p "initialized"

      structured :
          (raw : RawResponse) (t : State W) (q : Result (Failure E) InitializeResult)
          → response_deserialize p.to_initialize_result raw ≡ q
          → (continue q rest t).0 ≡ ok tt
          → (result : InitializeResult) × (response_deserialize p.to_initialize_result raw
              ≡ ok result)
            × (provides_all result.provides (required_of p.mixins) ≡ true)
      structured raw t (err e) k g = absurd (cc)
      structured raw t (ok result) k g = (result, k, checked result (tell p "initialized") t on g)

      go :
          (q : Result (Failure E) RawResponse × W)
          → p.respond "initialize" s.world ≡ q
          → (continue
              (continue q.0
                (λ raw t. (response_deserialize p.to_initialize_result raw, t))
                (record s { sent = s.sent ++ request "initialize" ∷ []; world = q.1 })).0
              rest
              (continue q.0
                (λ raw t. (response_deserialize p.to_initialize_result raw, t))
                (record s { sent = s.sent ++ request "initialize" ∷ []; world = q.1 })).1).0
            ≡ ok tt
          → (raw : RawResponse) × (result : InitializeResult) × ((p.respond "initialize" s.world).0
              ≡ ok raw)
            × (response_deserialize p.to_initialize_result raw ≡ ok result)
            × (provides_all result.provides (required_of p.mixins) ≡ true)
      go (err e, w) k g = absurd (cc)
      go (ok raw, w) k g =
          let t = record s { sent = s.sent ++ request "initialize" ∷ []; world = w } in
          let r = structured raw t (response_deserialize p.to_initialize_result raw) refl g in
          (raw, r.0, ap (λ x. x.0) k, r.1, r.2)
