-- ===== src/Table.antt =====
-- utils/channel.py and server/abc.py: the table of requests that wait for a response, and what
-- `StreamServer` does with a package. A channel has no buffer: sending an item ends when the
-- other side takes it. So an entry is known by what the requesting task is doing.
pub mod Life
pub mod Tests
use lsp_client.Base.{
  ℕ, String, Bool, true, false, ◌&&◌, ◌||◌, Option, none, some, List, [], ◌∷◌, ◌++◌, ◌==◌, ◌≡◌,
  refl, ◌↔◌, if◌then◌else◌, str_eq, is_some, eq_iff, arith,
}
use lsp_client.Base.Exec.{Result, ok, err}
use lsp_client.Host.{Error, value_error}

-- jsonrpc/id.py, and the `null` of a response to no request
pub data RequestId : Type 0 where
  text : String → RequestId
  number : ℕ → RequestId
  null : RequestId

pub same_id : RequestId → RequestId → Bool
same_id (text s) (text t) = str_eq s t
same_id (number m) (number n) = m == n
same_id null null = true
same_id _ _ = false

pub same_id_iff : (a b : RequestId) → (same_id a b ≡ true) ↔ (a ≡ b)
unfolding same_id
same_id_iff (text s) (text t) =
    ((λ h. ground (arith, eq_iff s t)), (λ h. ground (arith, eq_iff s t)))
same_id_iff (number m) (number n) = ground arith
same_id_iff (text s) (number n) = ground arith
same_id_iff (number n) (text s) = ground arith
same_id_iff null null = ((λ h. refl), (λ h. refl))
same_id_iff null (text s) = ground arith
same_id_iff null (number n) = ground arith
same_id_iff (text s) null = ground arith
same_id_iff (number n) null = ground arith

-- The requesting task still writes its request; waits in `receive`; or was cancelled by its
-- timeout, so that nobody will take the item.
pub data Phase : Type 0 where
  sending waiting abandoned : Phase

-- `_pending`
abbrev pub Table : Type 0
Table = List (RequestId × Phase)

unfoldable pub find : RequestId → Table → Option Phase
find id [] = none
find id ((k, p) ∷ t) = if same_id k id then some p else find id t

unfoldable pub put : RequestId → Phase → Table → Table
put id p [] = (id, p) ∷ []
put id p ((k, q) ∷ t) = if same_id k id then (id, p) ∷ t else (k, q) ∷ put id p t

-- `_pending.pop(id)`
unfoldable pub pop : RequestId → Table → Table
pop id [] = []
pop id ((k, p) ∷ t) = let rest = pop id t in if same_id k id then rest else (k, p) ∷ rest

-- `completed`
unfoldable pub completed : Table → Bool
completed [] = true
completed (e ∷ t) = false

unfoldable pub reserve : RequestId → Table → Result Error Table
reserve id t = if is_some (find id t) then err value_error else ok (put id sending t)

-- What becomes of `OneShotTable.send` for the response to an id: it raises, it goes on waiting for
-- the receiver, or the receiver has the response and the entry is gone.
pub data Sent : Type 0 where
  unknown : Sent
  blocked : Sent
  delivered : Table → Sent

abbrev pub sent_in : RequestId → Table → Option Phase → Sent
sent_in id t none = unknown
sent_in id t (some waiting) = delivered (pop id t)
sent_in id t (some _) = blocked

unfoldable pub send : RequestId → Table → Sent
send id t = sent_in id t (find id t)

-- The keys that a package has; an id that is `null` is one too.
pub record Keys : Type 0 where
  pub id : Option RequestId
  pub has_method : Bool
  pub has_result : Bool
  pub has_error : Bool

-- What `_handle_package` does with a package: gives it to the table, hands it to the client as a
-- request whose answer is sent back, or as a notification, or drops it.
pub data Route : Type 0 where
  to_table : RequestId → Route
  server_request : RequestId → Route
  notification : Route
  dropped : Route

abbrev route_method : Option RequestId → Bool → Route
route_method (some i) true = server_request i
route_method none true = notification
route_method _ false = dropped

abbrev route_response : Option RequestId → Bool → Route → Route
route_response (some i) true other = to_table i
route_response _ _ other = other

unfoldable pub handle_package : Keys → Route
handle_package k =
    route_response k.id (k.has_result || k.has_error) (route_method k.id k.has_method)
