-- ===== src/Requests/Hierarchy.antt =====
-- capability/request/call_hierarchy.py and capability/request/type_hierarchy.py. The tasks of a
-- task group run one after the other, in the order of the prepared items.
use lsp_client.Base.{Option, none, some, List, [], ◌∷◌, ◌++◌}
use lsp_client.Base.Exec.{◌>>=◌, pure}
use lsp_client.Host.{Host}
use lsp_client.Lsp.{Position}
use lsp_client.Client.{Settings, Action}
use lsp_client.Requests.{TextDocumentPosition, at_position}

-- `if resp: calls.extend(resp)`
abbrev pub extend {ℓ} : {A : Type ℓ} → List A → Option (List A) → List A
extend calls none = calls
extend calls (some resp) = calls ++ resp

-- `if calls: return calls`, and `None` otherwise
abbrev pub non_empty {ℓ} : {A : Type ℓ} → List A → Option (List A)
non_empty [] = none
non_empty (x ∷ xs) = some (x ∷ xs)

module _ (h : Host) (c : Settings) {Item Call : Type 0}
    (prepare : TextDocumentPosition → Action h c (Option (List Item)))
    (request_calls : Item → Action h c (Option (List Call))) where
  unfoldable pub prepare_call_hierarchy : h.FilePath → Position → Action h c (Option (List Item))
  unfolding at_position
  prepare_call_hierarchy = at_position h c prepare

  -- The task group, with the calls so far.
  unfoldable pub collect : List Call → List Item → Action h c (List Call)
  unfolding ◌>>=◌
  collect calls [] = pure calls
  collect calls (item ∷ items) = do resp ← request_calls item; collect (extend calls resp) items

  -- `if not prepared: return None`
  unfoldable pub of_prepared : Option (List Item) → Action h c (Option (List Call))
  unfolding collect ◌>>=◌
  of_prepared none = pure none
  of_prepared (some []) = pure none
  of_prepared (some (item ∷ items)) = do calls ← collect [] (item ∷ items); pure (non_empty calls)

  unfoldable pub request_call_hierarchy_incoming_call :
      h.FilePath → Position → Action h c (Option (List Call))
  unfolding at_position of_prepared ◌>>=◌
  request_call_hierarchy_incoming_call =
      at_position h c (λ params. do prepared ← prepare params; of_prepared prepared)

  unfoldable pub request_call_hierarchy_outgoing_call :
      h.FilePath → Position → Action h c (Option (List Call))
  unfolding at_position of_prepared ◌>>=◌
  request_call_hierarchy_outgoing_call =
      at_position h c (λ params. do prepared ← prepare params; of_prepared prepared)

module _ (h : Host) (c : Settings) {Item : Type 0}
    (prepare : TextDocumentPosition → Action h c (Option (List Item)))
    (request_items : Item → Action h c (Option (List Item))) where
  unfoldable pub request_type_hierarchy_supertypes :
      h.FilePath → Position → Action h c (Option (List Item))
  unfolding at_position of_prepared ◌>>=◌
  request_type_hierarchy_supertypes =
      at_position h c
        (λ params. do prepared ← prepare params; of_prepared h c prepare request_items prepared)

  unfoldable pub request_type_hierarchy_subtypes :
      h.FilePath → Position → Action h c (Option (List Item))
  unfolding at_position of_prepared ◌>>=◌
  request_type_hierarchy_subtypes =
      at_position h c
        (λ params. do prepared ← prepare params; of_prepared h c prepare request_items prepared)
