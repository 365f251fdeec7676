-- ===== src/Config/Get.antt =====
-- Which setting a lookup finds.
use lsp_client.Base.{
  ◌≡◌, refl, String, Bool, true, false, none, some, List, [], ◌∷◌, ◌++◌, if◌then◌else◌, str_eq,
  arith,
}
use lsp_client.Config.{
  Value, Fields, object, deep_merge, deep_get, split_dots, ScopeConfig, ConfigurationMap, add_scope,
  get_section, merge_scopes, get,
}
use lsp_client.Config.Merge.{are_distinct, is_leaf, deep_get-deep_merge}

module _ (posix_path : String → String) (fnmatch : String → String → Bool) where
  merge_scopes-append :
      (path : String) (xs : List ScopeConfig) (s : ScopeConfig) (config : Fields)
      → merge_scopes posix_path fnmatch path (xs ++ s ∷ []) config ≡ (
          if fnmatch path s.pattern
          then deep_merge (merge_scopes posix_path fnmatch path xs config) s.config
          else merge_scopes posix_path fnmatch path xs config)
  unfolding merge_scopes
  merge_scopes-append path [] s config = refl
  merge_scopes-append path (x ∷ xs) s config = merge_scopes-append path xs s _

  module _ (m : ConfigurationMap) (pattern uri section : String) (config : Fields)
      (there : str_eq uri "" ≡ false) (asked : str_eq section "" ≡ false) where
    -- For a file that its pattern matches, and a section that is named, a scope that was added
    -- last decides each setting that it has and that is neither null nor an object, against the
    -- global configuration and all earlier scopes. The keys of the scope's objects are distinct,
    -- as those of a dict are.
    pub get-add_scope :
        (v : Value)
        → are_distinct config ≡ true
        → is_leaf v ≡ true
        → deep_get (object config) (split_dots section) ≡ v
        → fnmatch (posix_path uri) pattern ≡ true
        → get posix_path fnmatch (some uri) (some section) (add_scope pattern config m).0 ≡ v
    unfolding get get_section add_scope
    get-add_scope v d l e hit =
        let s : ScopeConfig = record { pattern = pattern; config = config } in
        let earlier =
          merge_scopes posix_path fnmatch (posix_path uri) m.scoped_configs m.global_config in
        ground (
          arith,
          there,
          asked,
          merge_scopes-append (posix_path uri) m.scoped_configs s m.global_config,
          hit,
          deep_get-deep_merge (split_dots section) earlier config v d l e,
        )

    -- For every file that its pattern does not match, and without a file, an added scope changes
    -- no setting of a section that is named.
    pub get-add_scope_other :
        fnmatch (posix_path uri) pattern ≡ false
        → (get posix_path fnmatch (some uri) (some section) (add_scope pattern config m).0
            ≡ get posix_path fnmatch (some uri) (some section) m)
          × (get posix_path fnmatch none (some section) (add_scope pattern config m).0
              ≡ get posix_path fnmatch none (some section) m)
    unfolding get get_section add_scope
    get-add_scope_other miss =
        let s : ScopeConfig = record { pattern = pattern; config = config } in
        (
          ground (
            arith,
            there,
            merge_scopes-append (posix_path uri) m.scoped_configs s m.global_config,
            miss,
          ),
          refl,
        )
