-- ===== src/Clients/Known.antt =====
-- clients/lang.py and clients/__init__.py: the clients by language, and all clients.
use lsp_client.Base.{String, List, [], ◌∷◌}
use lsp_client.Clients.{ClientClass}
use lsp_client.Clients.Python.{pyright_client, basedpyright_client, ty_client, pyrefly_client}
use lsp_client.Clients.Compiled.{gopls_client, rust_analyzer_client, jdtls_client}
use lsp_client.Clients.Script.{typescript_client, deno_client}

abbrev pub lang_clients : List (String × ClientClass)
lang_clients =
    ("go", gopls_client)
    ∷ ("python", pyrefly_client)
    ∷ ("rust", rust_analyzer_client)
    ∷ ("typescript", typescript_client)
    ∷ ("deno", deno_client)
    ∷ ("java", jdtls_client)
    ∷ []

-- `clients` of clients/__init__.py: all client classes of the package.
abbrev pub clients : List ClientClass
clients =
    basedpyright_client ∷ gopls_client ∷ pyrefly_client ∷ pyright_client ∷ rust_analyzer_client
    ∷ deno_client ∷ typescript_client ∷ ty_client ∷ jdtls_client ∷ []
