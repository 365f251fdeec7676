-- ===== src/Capability/Inspect.antt =====
-- utils/inspect.py: which methods a client class and a server support. The server's capabilities
-- are those of its answer to `initialize`.
use lsp_client.Base.{◌≡◌, String, Bool, true, false, List, [], ◌∷◌, ◌++◌, inl, inr}
use lsp_client.Base.Exec.{Result, ok, err}
use lsp_client.Capability.{Mixin, iter_methods, check_server_capability}
use lsp_client.Capability.Catalogue.{all_capabilities}
use lsp_client.Capability.Advertised.{Verdict, provides_all, check_server_capability-Verdict}

pub record CapabilityInspectResult : Type 0 where
  pub capability : String
  pub client : Bool
  pub server : Bool

abbrev pub is_ok : Result String (Unit {0}) → Bool
is_ok (ok u) = true
is_ok (err e) = false

-- `issubclass(client_cls, cap)` is a parameter.
module _ (is_subclass : Mixin → Bool) (provides : String → Bool) where
  abbrev pub rows : Mixin → List String → List CapabilityInspectResult
  rows cap [] = []
  rows cap (method ∷ methods) =
      record {
        capability = method;
        client = is_subclass cap;
        server = is_ok (check_server_capability (cap ∷ []) provides);
      }
      ∷ rows cap methods

  unfoldable pub inspect_each : List Mixin → List CapabilityInspectResult
  inspect_each [] = []
  inspect_each (cap ∷ caps) = rows cap (iter_methods (cap ∷ [])) ++ inspect_each caps

  unfoldable pub inspect_capabilities : List CapabilityInspectResult
  unfolding inspect_each
  inspect_capabilities = inspect_each all_capabilities

  -- A method counts as supported by the server just if the server provides what its class asserts.
  pub is_ok-provides_all :
      (cap : Mixin)
      → is_ok (check_server_capability (cap ∷ []) provides) ≡ provides_all provides cap.required
  is_ok-provides_all cap =
      go (check_server_capability (cap ∷ []) provides)
        (check_server_capability-Verdict (cap ∷ []) provides)
    where
      go :
          (r : Result String (Unit {0}))
          → Verdict provides cap.required r
          → is_ok r ≡ provides_all provides cap.required
      go (ok u) (inl (e, b)) = cc
      go (err x) (inl (e, b)) = cc
      go (ok u) (inr (p, e, n, c, b)) = cc
      go (err x) (inr (p, e, n, c, b)) = cc
