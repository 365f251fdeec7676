-- ===== src/Table/Tests.antt =====
-- A table with one request, and one that timed out.
use lsp_client.Table.{same_id}
use lsp_client.Base.{◌≡◌, refl, false, some, [], ◌∷◌}
use lsp_client.Base.Exec.{ok, err}
use lsp_client.Host.{value_error}
use lsp_client.Table.{
  RequestId, number, text, sending, waiting, abandoned, Table, find, put, pop, completed, reserve,
  unknown, blocked, delivered, send,
}
use lsp_client.Table.Life.{request-once, here, next, reserves, timeout_leaks}

abbrev one : Table
one = (text "a", waiting) ∷ []

abbrev two : Table
two = put (number 7) sending one

reserve_7 : reserve (number 7) one ≡ ok two
unfolding reserve find same_id
reserve_7 = refl

request-once_example :
    let done = pop (number 7) (put (number 7) waiting two) in
    (send (number 7) (put (number 7) waiting two) ≡ delivered done)
    × ((j : RequestId) → find j done ≡ find j one)
    × (send (number 7) done ≡ unknown)
request-once_example = request-once (number 7) one two reserve_7

find_a : find (text "a") one ≡ some waiting
unfolding find same_id
find_a = refl

abbrev later : Table
later = put (number 7) sending (put (text "a") abandoned one)

reserve-later : reserve (number 7) (put (text "a") abandoned one) ≡ ok later
unfolding reserve find put same_id
reserve-later = refl

timeout_leaks_example :
    (send (text "a") later ≡ blocked)
    × (reserve (text "a") later ≡ err value_error)
    × (completed later ≡ false)
timeout_leaks_example =
    timeout_leaks (text "a") waiting one later find_a
      (next here (reserves (number 7) reserve-later))
