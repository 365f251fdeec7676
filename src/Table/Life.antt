-- ===== src/Table/Life.antt =====
-- The life of a request in the table, and of one that timed out.
use lsp_client.Base.{true, false, none, some, [], ◌∷◌, ◌≡◌, refl, if◌then◌else◌, arith}
use lsp_client.Base.Exec.{ok, err}
use lsp_client.Host.{value_error}
use lsp_client.Table.{
  RequestId, same_id, same_id_iff, Phase, sending, waiting, abandoned, Table, find, put, pop,
  completed, reserve, unknown, blocked, delivered, send,
}

find-put :
    (i j : RequestId) (p : Phase) (t : Table)
    → find j (put i p t) ≡ (if same_id i j then some p else find j t)
unfolding find put
find-put i j p [] = refl
find-put i j p ((k, q) ∷ t) =
    ground (arith, find-put i j p t, same_id_iff i j, same_id_iff k i, same_id_iff k j)

find-pop :
    (i j : RequestId) (t : Table) → find j (pop i t) ≡ (if same_id i j then none else find j t)
unfolding find pop
find-pop i j [] = ground arith
find-pop i j ((k, q) ∷ t) =
    ground (arith, find-pop i j t, same_id_iff i j, same_id_iff k i, same_id_iff k j)

same_id_refl : (i : RequestId) → same_id i i ≡ true
same_id_refl i = (same_id_iff i i).1 refl

-- A request that is reserved and waits gets its response exactly once: the response is delivered,
-- then the id is free again and every other entry is as before, so that a second response to it
-- is refused as unknown.
pub request-once :
    (i : RequestId) (t t' : Table)
    → reserve i t ≡ ok t'
    → let done = pop i (put i waiting t') in
      (send i (put i waiting t') ≡ delivered done)
      × ((j : RequestId) → find j done ≡ find j t)
      × (send i done ≡ unknown)
unfolding reserve send
request-once i t t' r =
    let free : find i t ≡ none = ground arith in
    let made : t' ≡ put i sending t = ground arith in
    (
      ground (arith, find-put i i waiting t', same_id_refl i),
      λ j. ground (
        arith,
        made,
        free,
        find-pop i j (put i waiting t'),
        find-put i j waiting t',
        find-put i j sending t,
        same_id_iff i j,
      ),
      ground (arith, find-pop i i (put i waiting t'), same_id_refl i),
    )

-- What may happen to the table, in any order and from any task.
pub data Step (t : Table) : Table → Type 0 where
  reserves : (i : RequestId) {u : Table} → reserve i t ≡ ok u → Step t u
  waits : (i : RequestId) {u : Table} → find i t ≡ some sending → u ≡ put i waiting t → Step t u
  times_out :
      (i : RequestId) (p : Phase) {u : Table} → find i t ≡ some p → u ≡ put i abandoned t → Step t u
  delivers : (i : RequestId) {u : Table} → send i t ≡ delivered u → Step t u

pub data Steps (t : Table) : Table → Type 0 where
  here : Steps t t
  next : {u v : Table} → Steps t u → Step u v → Steps t v

Step-abandoned :
    (i : RequestId) {t u : Table} → Step t u → find i t ≡ some abandoned → find i u ≡ some abandoned
unfolding reserve send
Step-abandoned i {t} (reserves j e) a = ground (arith, find-put j i sending t, same_id_iff j i)
Step-abandoned i {t} (waits j e f) a = ground (arith, find-put j i waiting t, same_id_iff j i)
Step-abandoned i {t} (times_out j p e f) a = ground (arith, find-put j i abandoned t)
Step-abandoned i {t} (delivers j e) a = ground (arith, find-pop j i t, same_id_iff j i)

Steps-abandoned :
    (i : RequestId) {t u : Table}
    → Steps t u
    → find i t ≡ some abandoned
    → find i u ≡ some abandoned
Steps-abandoned i here a = a
Steps-abandoned i (next s e) a = Step-abandoned i e (Steps-abandoned i s a)

completed-find : (i : RequestId) (t : Table) (p : Phase) → find i t ≡ some p → completed t ≡ false
unfolding completed find
completed-find i [] p e = cc
completed-find i (x ∷ t) p e = refl

-- Once a request has timed out its entry is never removed, whatever happens afterwards: a response
-- to it blocks, its id cannot be used again, and the table is never empty, so that the wait for
-- pending requests at the end of a session does not return.
pub timeout_leaks :
    (i : RequestId) (p : Phase) (t u : Table)
    → find i t ≡ some p
    → Steps (put i abandoned t) u
    → (send i u ≡ blocked) × (reserve i u ≡ err value_error) × (completed u ≡ false)
unfolding send reserve
timeout_leaks i p t u e s =
    let a : find i u ≡ some abandoned =
      Steps-abandoned i s (ground (arith, find-put i i abandoned t, same_id_refl i)) in
    (ground (arith, a), ground (arith, a), completed-find i u abandoned a)
