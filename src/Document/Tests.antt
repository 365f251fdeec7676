-- ===== src/Document/Tests.antt =====
-- Runs of the document manager at concrete documents.
use lsp_client.Base.Dict.{update}
use lsp_client.Document.{open_finish}
use lsp_client.Base.Dict.{insert}
use lsp_client.Document.{read_all}
use lsp_client.Document.{missing}
use lsp_client.Base.{
  ◌+◌, ◌≡◌, refl, String, true, false, ◌&&◌, not, some, List, [], ◌∷◌, contains, arith,
}
use lsp_client.Base.Dict.{Dict, lookup, member}
use lsp_client.Base.Exec.{ok, err}
use lsp_client.Host.{os_error}
use lsp_client.Document.{
  DocumentState, DocumentStateManager, Reader, new_manager, fresh_state, open_docs, close_docs,
  open_begin, get_version,
}
use lsp_client.Document.Counts.{occ}
use lsp_client.Document.Holders.{
  Holds, new_manager-Holds, open_docs-Holds, close_docs-Holds, close-open_docs,
}
use lsp_client.Base.Dict.{insert}
use lsp_client.Document.{fresh_state, update_content, open_rest, DocumentState}
use lsp_client.Document.Failure.{close_after_failed_open, Found, overlapping_opens}

abbrev reads : Reader
reads u = ok (97 ∷ [], "utf-8")

abbrev raises : Reader
raises u = err os_error

abbrev two : List String
two = "a" ∷ "b" ∷ []

abbrev opened : DocumentStateManager
opened = (open_docs reads two new_manager).1

abbrev news : Dict DocumentState
news = ("a", fresh_state (97 ∷ [], "utf-8")) ∷ ("b", fresh_state (97 ∷ [], "utf-8")) ∷ []

open-two : open_docs reads two new_manager ≡ (ok news, opened)
unfolding open_docs open_begin missing lookup read_all insert
open-two = refl

opened-Holds : Holds opened two
opened-Holds = open_docs-Holds reads two [] new_manager opened news new_manager-Holds open-two

close-open_docs_example :
    Holds (close_docs two opened).0 []
    × ((u : String) → contains u (close_docs two opened).1 ≡ member u news)
close-open_docs_example =
    close-open_docs reads two [] new_manager opened news new_manager-Holds open-two

split_two : (u : String) → occ u two ≡ occ u ("a" ∷ []) + occ u ("b" ∷ [])
unfolding occ
split_two u = ground arith

close_docs-Holds_example :
    Holds (close_docs ("a" ∷ []) opened).0 ("b" ∷ [])
    × ((u : String)
        → contains u (close_docs ("a" ∷ []) opened).1
          ≡ (contains u ("a" ∷ []) && not (contains u ("b" ∷ []))))
close_docs-Holds_example = close_docs-Holds ("a" ∷ []) two ("b" ∷ []) opened opened-Holds split_two

abbrev after_failure : DocumentStateManager
after_failure = (open_docs raises ("a" ∷ []) new_manager).1

abbrev after_retry : DocumentStateManager
after_retry = (open_docs reads ("a" ∷ []) after_failure).1

abbrev new_a : Dict DocumentState
new_a = ("a", fresh_state (97 ∷ [], "utf-8")) ∷ []

failed : open_docs raises ("a" ∷ []) new_manager ≡ (err os_error, after_failure)
unfolding open_docs open_begin missing lookup read_all
failed = refl

retried : open_docs reads ("a" ∷ []) after_failure ≡ (ok new_a, after_retry)
unfolding open_docs open_begin missing lookup read_all insert
retried = refl

close_after_failed_open_example :
    (contains "a" (close_docs ("a" ∷ []) after_retry).1 ≡ false)
    × (member "a" (close_docs ("a" ∷ []) after_retry).0.states ≡ true)
unfolding occ
close_after_failed_open_example =
    close_after_failed_open raises reads "a" [] new_manager after_failure after_retry os_error new_a
      new_manager-Holds refl failed retried

abbrev both_begun : DocumentStateManager
both_begun = (open_begin ("a" ∷ []) (open_begin two new_manager).1).1

abbrev read_once : DocumentState
read_once = fresh_state (97 ∷ [], "utf-8")

abbrev with_both : DocumentStateManager
with_both = record both_begun { states = ("a", read_once) ∷ ("b", read_once) ∷ [] }

abbrev edited : DocumentStateManager
edited = (update_content "a" (98 ∷ []) with_both).1

abbrev after_second : DocumentStateManager
after_second = record edited { states = ("a", read_once) ∷ ("b", read_once) ∷ [] }

overlapping_opens_example :
    (member "a" (("a", read_once) ∷ ("b", read_once) ∷ []) ≡ true)
    × (member "a" (("a", read_once) ∷ []) ≡ true)
    × (get_version "a" edited ≡ some 1)
    × Found reads "a" after_second.states
unfolding lookup open_begin missing open_rest read_all open_finish update update_content insert
overlapping_opens_example =
    overlapping_opens reads reads two ("a" ∷ []) new_manager with_both edited after_second "a"
      (("a", read_once) ∷ ("b", read_once) ∷ []) (("a", read_once) ∷ []) (98 ∷ []) refl refl refl
      refl refl refl

version_0 : get_version "a" opened ≡ some 0
unfolding get_version open_docs open_begin lookup missing read_all open_finish update
version_0 = refl
