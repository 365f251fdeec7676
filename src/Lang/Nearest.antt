-- ===== src/Lang/Nearest.antt =====
-- Which root is found.
use mathlib.Core.List.{◌++◌}
use lsp_client.Base.{
  ◌≡◌, refl, ap, ◌⊎◌, inl, inr, true, false, none, some, List, [], ◌∷◌, arith, All, Bool-cases,
}
use lsp_client.Lang.{
  LanguageConfig, Paths, is_project_root, first_root, search_from, find_project_root, find_client,
}

module _ (h : Paths) where
  -- No directory of the list is a root.
  abbrev pub NoRoot : LanguageConfig → List h.FilePath → Type 0
  NoRoot c = All (λ p. is_project_root h c p ≡ false)

  first_root-nearest :
      (c : LanguageConfig) (ps : List h.FilePath)
      → ((first_root h c ps ≡ none) × NoRoot c ps)
        ⊎ ((nearer farther : List h.FilePath) × (root : h.FilePath) × (ps
              ≡ nearer ++ root ∷ farther)
            × NoRoot c nearer
            × (is_project_root h c root ≡ true)
            × (first_root h c ps ≡ some root))
  unfolding first_root
  first_root-nearest c [] = inl (refl, tt)
  first_root-nearest c (p ∷ ps) = elim (Bool-cases (is_project_root h c p)) [
    | inl here ↦ inr ([], ps, p, refl, tt, here, ground (arith, here))
    | inr other ↦ elim (first_root-nearest c ps) [
      | inl (e, none_there) ↦ inl (ground (arith, other, e), (other, none_there))
      | inr (near, far, root, split, before, is_root, found) ↦ inr (
        p ∷ near,
        far,
        root,
        ap (λ (l : List h.FilePath). p ∷ l) split,
        (other, before),
        is_root,
        ground (arith, other, found),
      )
    ]
  ]

  -- The project root found is the nearest directory, of those looked at, that is a root; none is
  -- found only if none of them is one.
  pub find_project_root_lem :
      (c : LanguageConfig) (path : h.FilePath)
      → ((find_project_root h c path ≡ none) × NoRoot c (search_from h c path))
        ⊎ ((nearer farther : List h.FilePath) × (root : h.FilePath) × (search_from h c path
              ≡ nearer ++ root ∷ farther)
            × NoRoot c nearer
            × (is_project_root h c root ≡ true)
            × (find_project_root h c path ≡ some root))
  unfolding find_project_root
  find_project_root_lem c path = first_root-nearest c (search_from h c path)

  -- No earlier configuration finds a root.
  abbrev pub NoneFinds : h.FilePath → List LanguageConfig → Type 0
  NoneFinds path = All (λ c. find_project_root h c path ≡ none)

  -- The client found is that of the first language that has a root for the path, even if a later
  -- language has a nearer one.
  pub find_client-first :
      (before after : List LanguageConfig) (c : LanguageConfig) (path root : h.FilePath)
      → NoneFinds path before
      → find_project_root h c path ≡ some root
      → find_client h (before ++ c ∷ after) path ≡ some (c, root)
  unfolding find_client
  find_client-first [] after c path root none_before found = rw (found, find_client) refl
  find_client-first (d ∷ ds) after c path root none_before found =
      rw (none_before.0, find_client) (find_client-first ds after c path root none_before.1 found)
