-- ===== src/Dispatch/Tests.antt =====
-- Two packages on a stream that then ends.
use lsp_client.Base.{◌≡◌, refl, Bool, true, false, none, List, [], ◌∷◌, arith}
use lsp_client.Framing.{Bytes, write_raw_package}
use lsp_client.Table.{Keys, Route, dropped}
use lsp_client.Sample.Wire.{byte_stream, bracketed, stream_laws, json_laws}
use lsp_client.Dispatch.{cancelled, dispatch_loop}
use lsp_client.Dispatch.Stream.{written, Routes, dispatch_loop-written}

-- An empty package says that it is a notification.
abbrev keys_of : Bytes → Keys
keys_of [] = record { id = none; has_method = true; has_result = false; has_error = false }
keys_of (c ∷ p) = record { id = none; has_method = false; has_result = true; has_error = false }

abbrev always : Bytes → Bool
always p = true

abbrev two_packages : List Bytes
two_packages = (b'x' ∷ []) ∷ [] ∷ []

-- The task of the first package raises.
abbrev after_one : List Route → Bool
after_one [] = false
after_one (r ∷ rs) = true

cancelled_after_one :
    dispatch_loop byte_stream bracketed keys_of always after_one 3 []
      (written byte_stream bracketed two_packages)
    ≡ record { routes = dropped ∷ []; ending = cancelled }
unfolding dispatch_loop written write_raw_package
cancelled_after_one = refl

dispatch_loop-written_example :
    Routes byte_stream bracketed keys_of always after_one [] two_packages (
      dispatch_loop byte_stream bracketed keys_of always after_one 3 []
        (written byte_stream bracketed two_packages))
dispatch_loop-written_example =
    dispatch_loop-written byte_stream bracketed keys_of always after_one stream_laws json_laws []
      two_packages refl ((omega arith, refl), ((omega arith, refl), tt))
