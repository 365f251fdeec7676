-- ===== src/Requests/Converted.antt =====
-- What the client makes of the answers of the server.
use lsp_client.Base.{ℕ, ◌<◌, ◌≤◌, ◌⊎◌, ◌≡◌, refl, Option, none, some, List, [], ◌∷◌, map, arith}
use lsp_client.Base.Int.{ℤ, pos, negsuc}
use lsp_client.Requests.Places.{
  Location, LocationLink, Entry, location, location_link, LocationResult, nothing, one, sequence,
  is_locations, is_location_links, target, to_locations, to_links,
}

-- A sequence of both is one of neither.
is_locations-links :
    (es : List Entry) (links : List LocationLink) (locations : List Location)
    → is_location_links es ≡ some links
    → is_locations es ≡ some locations
    → locations ≡ map target links
unfolding is_location_links is_locations
is_locations-links [] links locations h k = ground arith
is_locations-links (location l ∷ es) links locations h k = cc
is_locations-links (location_link l ∷ es) links locations h k = cc

-- Where the answer can be read as links, it can be read as locations, and these are the targets of
-- the links at their selection ranges.
to_locations-links :
    (answer : LocationResult) (links : List LocationLink)
    → to_links answer ≡ some links
    → to_locations answer ≡ some (map target links)
unfolding to_locations to_links
to_locations-links nothing links h = cc
to_locations-links (one l) links h = cc
to_locations-links (sequence es) links h = choose (is_locations es) refl
  where
    choose :
        (o : Option (List Location))
        → is_locations es ≡ o
        → to_locations (sequence es) ≡ some (map target links)
    choose none k = ground (arith, k, h)
    choose (some locations) k = ground (arith, k, is_locations-links es links locations h k)

-- What an index that the server names stands for: itself if a list of the length has it, and else 0.
abbrev pub StandsFor : Option ℤ → ℕ → ℕ → Type 0
StandsFor none n i = i ≡ 0
StandsFor (some (negsuc k)) n i = i ≡ 0
StandsFor (some (pos k)) n i = ((k < n) × (i ≡ k)) ⊎ ((n ≤ k) × (i ≡ 0))
