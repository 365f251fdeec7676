-- ===== src/Config/Tests.antt =====
-- Configurations of a few settings; a pattern matches the path that is equal to it.
use lsp_client.Config.{getitem}
use lsp_client.Config.Merge.{are_distinct}
use lsp_client.Config.{set_field}
use lsp_client.Base.{◌≡◌, refl, some, str_eq}
use lsp_client.Config.{
  Fields, number, object, end, field, get_field, deep_merge, deep_get, split_dots, new_config_map,
  add_scope, get,
}
use lsp_client.Config.Get.{get-add_scope}

-- {"a": {"x": 1}} and {"a": {"y": 2}}
abbrev base : Fields
base = field "a" (object (field "x" (number 1) end)) end

abbrev update : Fields
update = field "a" (object (field "y" (number 2) end)) end

merge_both :
    deep_merge base update
    ≡ field "a" (object (field "x" (number 1) (field "y" (number 2) end))) end
unfolding deep_merge set_field get_field
merge_both = refl

get-add_scope_example :
    get (λ s. s) str_eq (some "/w/a") (some "a.y") (add_scope "/w/a" update new_config_map).0
    ≡ number 2
unfolding are_distinct get_field deep_get split_dots getitem
get-add_scope_example =
    get-add_scope (λ s. s) str_eq new_config_map "/w/a" "/w/a" "a.y" update refl refl (number 2)
      refl refl refl refl
