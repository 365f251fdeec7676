-- ===== src/Sample/Wire.antt =====
-- A stream that holds its bytes, and a code in which each package has a bracket in front, for the
-- tests.
use lsp_client.Base.{
  ℕ, ◌≡◌, refl, false, ◌&&◌, [], ◌∷◌, ◌++◌, ◌==◌, ltb, if◌then◌else◌, length, take, drop, arith,
  All, length-append,
}
use lsp_client.Base.Exec.{Result, ok, err}
use lsp_client.Framing.{Bytes, FrameError, closed, ByteStream, Json}
use lsp_client.Framing.Laws.{StreamLaws, JsonLaws}

abbrev put_front : ℕ → Result FrameError (Bytes × Bytes) → Result FrameError (Bytes × Bytes)
put_front c (ok (l, s)) = ok (c ∷ l, s)
put_front c (err e) = err e

abbrev until_line_end : Bytes → Result FrameError (Bytes × Bytes)
until_line_end [] = err closed
until_line_end (c ∷ []) = err closed
until_line_end (c ∷ d ∷ s) =
    let rest = until_line_end (d ∷ s) in if c == 13 && d == 10 then ok ([], s) else put_front c rest

abbrev exactly : ℕ → Bytes → Result FrameError (Bytes × Bytes)
exactly n s = if ltb (length s) n then err closed else ok (take n s, drop n s)

abbrev pub byte_stream : ByteStream
byte_stream = record { Stream = Bytes; receive_until = until_line_end; receive_exactly = exactly }

abbrev unwrap : Bytes → Result FrameError Bytes
unwrap [] = err closed
unwrap (c ∷ s) = ok s

abbrev pub bracketed : Json
bracketed = record { Package = Bytes; dumps = λ p. b'[' ∷ p; loads = unwrap }

pub until_line_end-line :
    (l rest : Bytes)
    → All (λ c. (c == 13) ≡ false) l
    → until_line_end (l ++ 13 ∷ 10 ∷ rest) ≡ ok (l, rest)
until_line_end-line [] rest a = refl
until_line_end-line (c ∷ []) rest a = ground (arith, a.0)
until_line_end-line (c ∷ d ∷ l) rest a = ground (arith, a.0, until_line_end-line (d ∷ l) rest a.1)

take-all : (s rest : Bytes) → take (length s) (s ++ rest) ≡ s
take-all [] rest = refl
take-all (c ∷ s) rest = ground (arith, take-all s rest)

drop-all : (s rest : Bytes) → drop (length s) (s ++ rest) ≡ rest
drop-all [] rest = refl
drop-all (c ∷ s) rest = drop-all s rest

pub exactly-all : (s rest : Bytes) → exactly (length s) (s ++ rest) ≡ ok (s, rest)
exactly-all s rest = ground (arith, length-append s rest, take-all s rest, drop-all s rest)

abbrev pub stream_laws : StreamLaws byte_stream
stream_laws = record {
  feed = λ s. s;
  receive_until-line = λ l rest k. until_line_end-line l rest k.0;
  receive_exactly-all = exactly-all;
}

abbrev pub json_laws : JsonLaws bracketed
json_laws = record { loads-dumps = λ p. refl; dumps_pos = λ p. omega arith }
