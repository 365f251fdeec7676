-- ===== src/Requests/Applied.antt =====
-- What applying code actions does.
use lsp_client.Base.{
  ◌≡◌, refl, sym, subst, ap, ◌⊎◌, inl, inr, true, false, ◌&&◌, not, is_some, if◌then◌else◌, Bool,
  Option, none, some, List, [], ◌∷◌, ◌++◌,
}
use lsp_client.Base.Exec.{Result, ok, err, ok_injective, continue, pure, raise, ◌>>=◌}
use lsp_client.Host.{Host, Error}
use lsp_client.Client.{Settings, World, Action}
use lsp_client.WorkspaceEdit.{WorkspaceEdit, apply_workspace_edit}
use lsp_client.Requests.Actions.{
  Command, CodeAction, CodeActionItem, action_item, apply_code_action, apply_code_actions,
  apply_action, run_edit, run_optional, resolved, command_item,
}

module _ (h : Host) (c : Settings) (resolve : CodeAction → Action h c CodeAction) where
  abbrev applies : Option (Command → Action h c (Unit {0})) → CodeActionItem → Action h c (Unit {0})
  applies execute = apply_code_action h c resolve execute

  -- The action as it is applied: a client asks the server for one that has neither an edit nor a
  -- command.
  abbrev pub Resolves : CodeAction → World h → CodeAction → World h → Type 0
  Resolves item w ready t =
      ((item.edit ≡ none) × (item.command ≡ none) × (resolve item w ≡ (ok ready, t)))
      ⊎ ((¬ ((item.edit ≡ none) × (item.command ≡ none))) × (ready ≡ item) × (t ≡ w))

  -- There is no edit, or it was applied without an error.
  abbrev pub Edits : Option WorkspaceEdit → World h → World h → Type 0
  Edits o t u =
      ((o ≡ none) × (u ≡ t))
      ⊎ ((edit : WorkspaceEdit) × (o ≡ some edit) × (apply_workspace_edit h c edit t ≡ (ok tt, u)))

  -- Actions of which none has a command when it is applied: each is disabled, or its edit is
  -- applied, behind those of the actions before it.
  pub data Applied : List CodeActionItem → World h → World h → Type 0 where
    no_more : (w : World h) → Applied [] w w
    skips :
        (item : CodeAction) {items : List CodeActionItem} {w v : World h}
        → item.disabled ≡ true
        → Applied items w v
        → Applied (action_item item ∷ items) w v
    edits :
        (item ready : CodeAction) {items : List CodeActionItem} {w t u v : World h}
        → item.disabled ≡ false
        → Resolves item w ready t
        → ready.command ≡ none
        → Edits ready.edit t u
        → Applied items u v
        → Applied (action_item item ∷ items) w v

  abbrev without : List CodeActionItem → Action h c (Unit {0})
  without = apply_code_actions h c resolve none

  run_optional-ok :
      (o : Option Command) (u v : World h)
      → run_optional h c resolve none o u ≡ (ok tt, v)
      → (o ≡ none) × (v ≡ u)
  unfolding pure raise
  run_optional-ok none u v e = (refl, sym (ap (λ r. r.1) e))
  run_optional-ok (some command) u v e = absurd (cc)

  Edits-run :
      (o : Option WorkspaceEdit) (k : Option Command) (t v : World h)
      → continue
          (run_edit h c resolve none o t).0
          (λ x. run_optional h c resolve none k)
          (run_edit h c resolve none o t).1
        ≡ (ok tt, v)
      → (k ≡ none) × Edits o t v
  unfolding pure
  Edits-run none k t v e = let f = run_optional-ok k t v e in (f.0, inl (refl, f.1))
  Edits-run (some edit) k t v e = go (apply_workspace_edit h c edit t) refl e
    where
      go :
          (q : Result Error (Unit {0}) × World h)
          → apply_workspace_edit h c edit t ≡ q
          → continue q.0 (λ x. run_optional h c resolve none k) q.1 ≡ (ok tt, v)
          → (k ≡ none) × Edits (some edit) t v
      go (ok x, u) a f =
          let g = run_optional-ok k u v f in
          (
            g.0,
            inr (edit, refl, subst (λ z. apply_workspace_edit h c edit t ≡ (ok tt, z)) (sym g.1) a),
          )
      go (err x, u) a f = absurd (cc)

  -- One action that is not disabled.
  abbrev One : CodeAction → World h → World h → Type 0
  One item w u =
      (ready : CodeAction) × (t : World h) × Resolves item w ready t
      × (ready.command ≡ none)
      × Edits ready.edit t u

  pure-Resolves :
      (item ready : CodeAction) (w t : World h)
      → ¬ ((item.edit ≡ none) × (item.command ≡ none))
      → pure {S = World h} {E = Error} item w ≡ (ok ready, t)
      → Resolves item w ready t
  unfolding pure
  pure-Resolves item ready w t n e =
      inr (n, sym (ok_injective {E = Error} (ap (λ r. r.0) e)), sym (ap (λ r. r.1) e))

  resolved-Resolves :
      (item ready : CodeAction) (w t : World h) (a : Option WorkspaceEdit) (k : Option Command)
      → item.edit ≡ a
      → item.command ≡ k
      → (if not (is_some a) && not (is_some k) then resolve item else pure item) w ≡ (ok ready, t)
      → Resolves item w ready t
  unfolding pure
  resolved-Resolves item ready w t none none p q e = inl (p, q, e)
  resolved-Resolves item ready w t none (some x) p q e =
      pure-Resolves item ready w t (λ n. absurd (cc)) e
  resolved-Resolves item ready w t (some x) k p q e =
      pure-Resolves item ready w t (λ n. absurd (cc)) e

  One-apply :
      (item : CodeAction) (w u : World h)
      → apply_action h c resolve none item w ≡ (ok tt, u)
      → One item w u
  unfolding apply_action ◌>>=◌
  One-apply item w u e = go (resolved h c resolve none item w) refl e
    where
      go :
          (q : Result Error CodeAction × World h)
          → resolved h c resolve none item w ≡ q
          → continue q.0
              (λ ready t.
                continue
                  (run_edit h c resolve none ready.edit t).0
                  (λ x. run_optional h c resolve none ready.command)
                  (run_edit h c resolve none ready.edit t).1)
              q.1
            ≡ (ok tt, u)
          → One item w u
      go (ok ready, t) k f =
          let d = Edits-run ready.edit ready.command t u f in
          (ready, t, resolved-Resolves item ready w t item.edit item.command refl refl k, d.0, d.1)
      go (err x, t) k f = absurd (cc)

  One-apply_item :
      (item : CodeAction) (w u : World h)
      → apply_code_action h c resolve none (action_item item) w ≡ (ok tt, u)
      → ((item.disabled ≡ true) × (u ≡ w)) ⊎ ((item.disabled ≡ false) × One item w u)
  unfolding apply_code_action pure
  One-apply_item item w u e = go item.disabled refl e
    where
      go :
          (b : Bool)
          → item.disabled ≡ b
          → (if b then pure tt else apply_action h c resolve none item) w ≡ (ok tt, u)
          → ((item.disabled ≡ true) × (u ≡ w)) ⊎ ((item.disabled ≡ false) × One item w u)
      go true k f = inl (k, sym (ap {A = Result Error (Unit {0}) × World h} (λ r. r.1) f))
      go false k f = inr (k, One-apply item w u f)

  -- If a client without the mixin for commands applies code actions without an error, then none of
  -- them was a command, and none that is enabled had one when it was applied; their edits, if they
  -- have any, were applied without an error, in the order of the actions, and nothing else was done
  -- but to resolve the actions that have neither.
  pub apply_code_actions-Applied :
      (items : List CodeActionItem) (w v : World h)
      → apply_code_actions h c resolve none items w ≡ (ok tt, v)
      → Applied items w v
  unfolding apply_code_actions pure ◌>>=◌
  apply_code_actions-Applied [] w v e = subst (Applied [] w) (ap (λ r. r.1) e) (no_more w)
  apply_code_actions-Applied (command_item command ∷ items) w v e =
      unfold apply_code_action raise in absurd (cc)
  apply_code_actions-Applied (action_item item ∷ items) w v e =
      go (apply_code_action h c resolve none (action_item item) w) refl e
        (λ u k. apply_code_actions-Applied items u v k)
    where
      go :
          (q : Result Error (Unit {0}) × World h)
          → apply_code_action h c resolve none (action_item item) w ≡ q
          → continue q.0 (λ x. apply_code_actions h c resolve none items) q.1 ≡ (ok tt, v)
          → ((u : World h)
              → apply_code_actions h c resolve none items u ≡ (ok tt, v)
              → Applied items u v)
          → Applied (action_item item ∷ items) w v
      go (err x, u) k f ih = absurd (cc)
      go (ok x, u) k f ih = elim (One-apply_item item w u k) [
        | inl (off, same) ↦ skips item off (subst (λ z. Applied items z v) same (ih u f))
        | inr (on, (ready, t, r, n, d)) ↦ edits item ready on r n d (ih u f)
      ]

  module _ (execute : Option (Command → Action h c (Unit {0}))) where
    -- If the items before it are applied and an item raises, the items after it are not tried, and
    -- what the items up to it have changed stays.
    pub apply_code_actions-fails :
        (before : List CodeActionItem) (item : CodeActionItem) (after : List CodeActionItem)
        (w v t : World h) (e : Error)
        → apply_code_actions h c resolve execute before w ≡ (ok tt, v)
        → apply_code_action h c resolve execute item v ≡ (err e, t)
        → apply_code_actions h c resolve execute (before ++ item ∷ after) w ≡ (err e, t)
    unfolding apply_code_actions pure
    apply_code_actions-fails [] item after w v t e a f =
        let same : w ≡ v = ap (λ r. r.1) a in rw (same, f) refl
    apply_code_actions-fails (b ∷ before) item after w v t e a f =
        go (apply_code_action h c resolve execute b w)
          (λ s q. apply_code_actions-fails before item after s v t e q f) a
      where
        go :
            (r : Result Error (Unit {0}) × World h)
            → ((s : World h)
                → apply_code_actions h c resolve execute before s ≡ (ok tt, v)
                → apply_code_actions h c resolve execute (before ++ item ∷ after) s ≡ (err e, t))
            → continue r.0 (λ u. apply_code_actions h c resolve execute before) r.1 ≡ (ok tt, v)
            → continue r.0
                (λ u. apply_code_actions h c resolve execute (before ++ item ∷ after))
                r.1
              ≡ (err e, t)
        go (ok u, s) k q = k s q
        go (err x, s) k q = absurd (cc)
