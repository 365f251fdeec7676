-- ===== src/Sample/Paths.antt =====
-- The paths of the host in memory keep the laws of `pathlib` that the client relies on.
use lsp_client.Base.{◌≡◌, refl, String, true, List, [], ◌∷◌, ◌++◌, length, drop, arith, eq_iff}
use lsp_client.Workspace.Convert.{PathLaws}
use lsp_client.Sample.{memory_host, is_prefix}

is_prefix-join : (q p : List String) → is_prefix q p ≡ true → q ++ drop (length q) p ≡ p
is_prefix-join [] p h = refl
is_prefix-join (s ∷ q) [] h = cc
is_prefix-join (s ∷ q) (t ∷ p) h = ground (arith, is_prefix-join q p, eq_iff s t)

pub memory_host-PathLaws : PathLaws memory_host
memory_host-PathLaws = record {
  join-relative_to = λ p q h. ground (arith, is_prefix-join q p, h);
  relative_to-relative = λ p q h. ground (arith, h);
  join_name-relative = λ n p k h. ground (arith, k.1, h);
  parts-join_name = λ n p k h. ground (arith, h);
  from_parts-parts = λ p. refl;
}
