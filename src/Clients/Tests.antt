-- ===== src/Clients/Tests.antt =====
-- A request that no client can make, and one that some answer.
use lsp_client.Base.{◌≡◌, refl, false, All, contains}
use lsp_client.Capability.{text_document, iter_methods}
use lsp_client.Clients.Known.{clients}
use lsp_client.Clients.Answers.{
  AnswersOnly, AdvertisesOwn, clients-AnswersOnly, clients-AdvertisesOwn,
}

-- No client of the package can execute the command of a code action.
abbrev CommandsMissing : Type 0
CommandsMissing =
    All (λ c. contains "workspace/executeCommand" (iter_methods c.mixins) ≡ false) clients

no_commands : CommandsMissing
unfolding iter_methods
no_commands = (refl, (refl, (refl, (refl, (refl, (refl, (refl, (refl, (refl, tt)))))))))

clients-AnswersOnly_example : All (AnswersOnly "workspace/applyEdit") clients
clients-AnswersOnly_example = clients-AnswersOnly "workspace/applyEdit"

clients-AdvertisesOwn_example : All (AdvertisesOwn text_document "hover") clients
clients-AdvertisesOwn_example = clients-AdvertisesOwn text_document "hover"
