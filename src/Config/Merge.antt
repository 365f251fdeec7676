-- ===== src/Config/Merge.antt =====
-- What a merged configuration has at a key and along a path of keys.
use lsp_client.Base.{
  ◌≡◌, refl, sym, subst, String, Bool, true, false, ◌&&◌, not, Option, none, some, List, [], ◌∷◌,
  if◌then◌else◌, str_eq, is_some, arith, eq_iff, eq_refl, Bool-cases, inl, inr,
}
use lsp_client.Config.{
  Value, Fields, null, boolean, number, text, array, object, end, field, get_field, set_field,
  merged, merge_into, deep_merge, getitem, deep_get,
}

get-set_field :
    (k j : String) (v : Value) (fs : Fields)
    → get_field j (set_field k v fs) ≡ (if str_eq k j then some v else get_field j fs)
unfolding get_field set_field
get-set_field k j v end = refl
get-set_field k j v (field i w fs) =
    ground (arith, eq_iff k j, eq_iff i k, eq_iff i j, get-set_field k j v fs)

-- The keys of an object, and of the objects in it, are distinct: so are those of every `dict`.
unfoldable mutual
  pub is_dict : Value → Bool
  is_dict null = true
  is_dict (boolean b) = true
  is_dict (number n) = true
  is_dict (text t) = true
  is_dict (array xs) = true
  is_dict (object fs) = are_distinct fs

  pub are_distinct : Fields → Bool
  are_distinct end = true
  are_distinct (field k v fs) = not (is_some (get_field k fs)) && (is_dict v && are_distinct fs)

-- The value at a key after a merge.
abbrev pub merged_at : Option Value → Option Value → Option Value
merged_at old none = old
merged_at old (some v) = some (merged old v (λ base. merge_into base v))

-- If the keys of the update's objects are distinct: after a merge a key of the update alone has
-- the update's value, a key of the base alone keeps its own, and a key of both has the update's
-- value unless both values are objects, which are merged in turn.
pub get-deep_merge :
    (base update : Fields) (k : String)
    → are_distinct update ≡ true
    → get_field k (deep_merge base update) ≡ merged_at (get_field k base) (get_field k update)
unfolding deep_merge are_distinct get_field
get-deep_merge base end k d = refl
get-deep_merge base (field j v rest) k d =
    let now : Value = merged (get_field j base) v (λ b. merge_into b v) in
    let ih = get-deep_merge (set_field j now base) rest k (ground (arith, d)) in
    elim (Bool-cases (str_eq j k)) [
      | inl same ↦
          let at_j = get-deep_merge (set_field j now base) rest j (ground (arith, d)) in
          subst
            (λ i.
              get_field i (deep_merge (set_field j now base) rest)
              ≡ merged_at (get_field i base) (if str_eq j i then some v else get_field i rest))
            ((eq_iff j k).0 same) (ground (arith, d, at_j, eq_refl j, get-set_field j j now base))
      | inr other ↦ ground (arith, other, ih, get-set_field j k now base)
    ]

-- A value that a merge does not enter.
abbrev pub is_leaf : Value → Bool
is_leaf null = false
is_leaf (object fs) = false
is_leaf _ = true

get_field-distinct :
    (k : String) (fs : Fields) (v : Value)
    → are_distinct fs ≡ true
    → get_field k fs ≡ some v
    → is_dict v ≡ true
unfolding are_distinct get_field
get_field-distinct k end v d e = cc
get_field-distinct k (field j w fs) v d e = ground (arith, get_field-distinct k fs v, d)

-- If the keys of the update's objects are distinct: a setting of the update that is neither null
-- nor an object, at any path of keys, is the setting of the merged configuration, whatever the
-- base has there or on the way.
pub deep_get-deep_merge :
    (keys : List String) (base update : Fields) (v : Value)
    → are_distinct update ≡ true
    → is_leaf v ≡ true
    → deep_get (object update) keys ≡ v
    → deep_get (object (deep_merge base update)) keys ≡ v
unfolding deep_get getitem deep_merge are_distinct
deep_get-deep_merge [] base update v d l e = cc
deep_get-deep_merge (k ∷ ks) base update v d l e =
    subst (λ o. (elim o [ none ↦ null | some w ↦ deep_get w ks ]) ≡ v)
      (sym (get-deep_merge base update k d))
      (go (get_field k base) (get_field k update) (λ w. get_field-distinct k update w d)
        (λ b u. deep_get-deep_merge ks b u v) e)
  where
    go :
        (old new : Option Value)
        → ((w : Value) → new ≡ some w → is_dict w ≡ true)
        → ((b u : Fields)
            → are_distinct u ≡ true
            → is_leaf v ≡ true
            → deep_get (object u) ks ≡ v
            → deep_get (object (deep_merge b u)) ks ≡ v)
        → (elim new [ none ↦ null | some w ↦ deep_get w ks ]) ≡ v
        → (elim (merged_at old new) [ none ↦ null | some w ↦ deep_get w ks ]) ≡ v
    go old none dw ih f = ground arith
    go (some (object b)) (some (object u)) dw ih f = ih b u (dw (object u) refl) l f
    go _ (some w) dw ih f = f
