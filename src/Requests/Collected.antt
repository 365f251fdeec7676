-- ===== src/Requests/Collected.antt =====
-- The requests that a method makes for each of several items.
use lsp_client.Base.{
  ◌≡◌, refl, sym, ap, ◌∙◌, ◌⊎◌, inl, inr, Option, none, some, List, [], ◌∷◌, ◌++◌,
}
use mathlib.Core.List.{append-nil, append_assoc}
use lsp_client.Base.Exec.{Result, ok, ◌>>=◌, pure}
use lsp_client.Host.{Host, Error}
use lsp_client.Client.{Settings, World, Action}
use lsp_client.Requests.{TextDocumentPosition}
use lsp_client.Requests.Hierarchy.{collect, of_prepared, extend, non_empty}

-- The calls in the server's answers to all items, one after the other.
abbrev pub calls_of {ℓ κ} :
    {Item : Type ℓ} {Call : Type κ} → (Item → Option (List Call)) → List Item → List Call
calls_of answer [] = []
calls_of answer (item ∷ items) = elim (answer item) [
  | none ↦ calls_of answer items
  | some calls ↦ calls ++ calls_of answer items
]

-- The items that were prepared.
abbrev pub prepared_items {ℓ} : {Item : Type ℓ} → Option (List Item) → List Item
prepared_items none = []
prepared_items (some items) = items

-- The outcome is a list just of the calls, and `None` if there are none.
abbrev pub Gives : {Call : Type 0} → List Call → Result Error (Option (List Call)) → Type 0
Gives {Call} calls r =
    ((calls ≡ []) × (r ≡ ok none))
    ⊎ ((call : Call) × (more : List Call) × (calls ≡ call ∷ more) × (r ≡ ok (some calls)))

module _ (h : Host) (c : Settings) {Item Call : Type 0}
    (prepare : TextDocumentPosition → Action h c (Option (List Item)))
    (request_calls : Item → Action h c (Option (List Call))) (answer : Item → Option (List Call))
    (answers : (item : Item) (w : World h) → (request_calls item w).0 ≡ ok (answer item)) where
  extend-calls_of :
      (calls : List Call) (item : Item) (items : List Item)
      → extend calls (answer item) ++ calls_of answer items
        ≡ calls ++ calls_of answer (item ∷ items)
  extend-calls_of calls item items = go (answer item)
    where
      go :
          (o : Option (List Call))
          → extend calls o ++ calls_of answer items
            ≡ calls ++ (elim o [
              | none ↦ calls_of answer items
              | some resp ↦ resp ++ calls_of answer items
            ])
      go none = refl
      go (some resp) = append_assoc calls resp (calls_of answer items)

  collect-calls_of :
      (calls : List Call) (items : List Item) (w : World h)
      → (collect h c prepare request_calls calls items w).0 ≡ ok (calls ++ calls_of answer items)
  unfolding collect ◌>>=◌ pure
  collect-calls_of calls [] w = ap ok (sym (append-nil calls))
  collect-calls_of calls (item ∷ items) w = rw (answers item w) (
      collect-calls_of (extend calls (answer item)) items (request_calls item w).1
      ∙ ap ok (extend-calls_of calls item items))

  non_empty-Gives : (calls : List Call) → Gives calls (ok (non_empty calls))
  non_empty-Gives [] = inl (refl, refl)
  non_empty-Gives (call ∷ more) = inr (call, more, refl, refl)

  -- If what the server answers to the request for an item depends on the item alone, the outcome
  -- is the list of the calls in its answers for all prepared items, each in its order, and `None`
  -- if there are none or nothing was prepared.
  pub of_prepared-answers :
      (prepared : Option (List Item)) (w : World h)
      → Gives
          (calls_of answer (prepared_items prepared))
          (of_prepared h c prepare request_calls prepared w).0
  unfolding of_prepared pure ◌>>=◌
  of_prepared-answers none w = inl (refl, refl)
  of_prepared-answers (some []) w = inl (refl, refl)
  of_prepared-answers (some (item ∷ items)) w =
      rw (collect-calls_of [] (item ∷ items) w) (non_empty-Gives (calls_of answer (item ∷ items)))
