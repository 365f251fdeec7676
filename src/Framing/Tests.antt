-- ===== src/Framing/Tests.antt =====
-- Packages on a stream that holds its bytes.
use lsp_client.Base.{◌≡◌, refl, [], ◌∷◌, ◌++◌, arith}
use lsp_client.Base.Exec.{ok}
use lsp_client.Framing.{header_name, decimal, read_raw_package, write_raw_package}
use lsp_client.Framing.Laws.{IsLine, read-write_raw_package, read_raw_package-second_header}
use lsp_client.Sample.Wire.{byte_stream, bracketed, stream_laws, json_laws}

read-write_raw_package_example :
    read_raw_package byte_stream bracketed
      (write_raw_package byte_stream bracketed (b'x' ∷ []) ++ b'y' ∷ [])
    ≡ ok (b'x' ∷ [], b'y' ∷ [])
read-write_raw_package_example =
    read-write_raw_package byte_stream bracketed stream_laws json_laws (b'x' ∷ []) (b'y' ∷ [])
      (omega arith)

content_type-IsLine : IsLine (b'T' ∷ b':' ∷ [])
content_type-IsLine = ((refl, (refl, tt)), omega arith)

read_raw_package-second_header_example :
    read_raw_package byte_stream bracketed (
      (header_name ++ 32 ∷ decimal 3 2)
      ++ 13 ∷ 10 ∷ b'T' ∷ b':' ∷ 13 ∷ 10 ∷ 13 ∷ 10 ∷ b'[' ∷ b'x' ∷ [])
    ≡ ok (10 ∷ [], b'[' ∷ b'x' ∷ [])
read_raw_package-second_header_example =
    read_raw_package-second_header byte_stream bracketed stream_laws json_laws (b'[' ∷ b'x' ∷ [])
      (b'T' ∷ b':' ∷ []) [] (omega arith) (omega arith) content_type-IsLine
