-- ===== src/Framing.antt =====
-- jsonrpc/parse.py: packages on the wire. The byte stream of `anyio`, and JSON with its encoding,
-- are parameters.
pub mod Decimal
pub mod Laws
pub mod Tests
use lsp_client.Base.{
  ℕ, zero, suc, ◌+◌, ◌-◌, ◌*◌, ◌/◌, ◌%◌, Bool, true, false, ◌&&◌, ◌||◌, Option, none, some, List,
  [], ◌∷◌, ◌++◌, ◌==◌, ltb, leb, if◌then◌else◌, length,
}
use lsp_client.Base.Exec.{Result, ok, err}

-- What reading a package may raise: `closed` stands for the exceptions of a stream that has ended
-- or was closed, and `delimiter_not_found` for that of a line longer than what is looked through.
pub data FrameError : Type 0 where
  transport_error parse_error closed delimiter_not_found : FrameError

abbrev pub Bytes : Type 0
Bytes = List ℕ

-- A buffered stream that is at some point of its bytes.
pub record ByteStream : Type 1 where
  pub Stream : Type 0
  -- up to and without the delimiter "\r\n", which is consumed
  pub receive_until : Stream → Result FrameError (Bytes × Stream)
  pub receive_exactly : ℕ → Stream → Result FrameError (Bytes × Stream)

-- `json.dumps` with `encode`, and `json.loads` with `decode`
pub record Json : Type 1 where
  pub Package : Type 0
  pub dumps : Package → Bytes
  pub loads : Bytes → Result FrameError Package

abbrev pub is_digit : ℕ → Bool
is_digit c = leb b'0' c && leb c b'9'

-- `\s` on ASCII
abbrev pub is_space : ℕ → Bool
is_space c = c == 32 || (leb 9 c && leb c 13)

-- `Content-Length:`
abbrev pub header_name : Bytes
header_name =
    b'C' ∷ b'o' ∷ b'n' ∷ b't' ∷ b'e' ∷ b'n' ∷ b't' ∷ b'-' ∷ b'L' ∷ b'e' ∷ b'n' ∷ b'g' ∷ b't' ∷ b'h'
    ∷ b':' ∷ []

unfoldable pub strip_prefix : Bytes → Bytes → Option Bytes
strip_prefix [] s = some s
strip_prefix (c ∷ cs) [] = none
strip_prefix (c ∷ cs) (d ∷ s) = if c == d then strip_prefix cs s else none

unfoldable pub skip_spaces : Bytes → Bytes
skip_spaces [] = []
skip_spaces (c ∷ s) = if is_space c then skip_spaces s else c ∷ s

-- The digits at the front, as a number: `int` of the group `\d+`, with what was read so far.
unfoldable pub read_digits : ℕ → Bytes → ℕ
read_digits acc [] = acc
read_digits acc (c ∷ s) =
    let rest = read_digits (acc * 10 + (c - b'0')) s in if is_digit c then rest else acc

-- `\d+` wants one digit
unfoldable pub read_number : Bytes → Option ℕ
read_number [] = none
read_number (c ∷ s) = if is_digit c then some (read_digits 0 (c ∷ s)) else none

abbrev after_name : Option Bytes → Option ℕ
after_name none = none
after_name (some s) = read_number (skip_spaces s)

-- `HEADER_RE.match(header)` and its group `length`
unfoldable pub header_length : Bytes → Option ℕ
unfolding strip_prefix skip_spaces read_number read_digits
header_length header = after_name (strip_prefix header_name header)

-- `str(n)`
unfoldable pub decimal : ℕ → ℕ → Bytes
decimal zero n = []
decimal (suc fuel) n =
    let more = decimal fuel (n / 10) ++ (b'0' + n % 10) ∷ [] in
    if ltb n 10 then (b'0' + n) ∷ [] else more

module _ (b : ByteStream) (j : Json) where
  open b use {Stream, receive_until, receive_exactly}
  open j use {Package, dumps, loads}

  abbrev pub with_body : Result FrameError (Bytes × Stream) → Result FrameError (Package × Stream)
  with_body (err e) = err e
  with_body (ok (body_bytes, s)) = elim (loads body_bytes) [ err e ↦ err e | ok p ↦ ok (p, s) ]

  abbrev with_blank : ℕ → Result FrameError (Bytes × Stream) → Result FrameError (Package × Stream)
  with_blank n (err e) = err e
  with_blank n (ok (blank, s)) = with_body (receive_exactly n s)

  -- a length of 0 is refused as no match is
  abbrev with_length : Option ℕ → Stream → Result FrameError (Package × Stream)
  with_length none s = err parse_error
  with_length (some n) s = if n == 0 then err parse_error else with_blank n (receive_until s)

  abbrev with_header : Result FrameError (Bytes × Stream) → Result FrameError (Package × Stream)
  with_header (err e) = err e
  with_header (ok ([], s)) = err transport_error
  with_header (ok (c ∷ header, s)) = with_length (header_length (c ∷ header)) s

  unfoldable pub read_raw_package : Stream → Result FrameError (Package × Stream)
  unfolding header_length
  read_raw_package s = with_header (receive_until s)

  -- The bytes that `write_raw_package` sends. A number has at most as many digits as it counts.
  unfoldable pub write_raw_package : Package → Bytes
  unfolding decimal
  write_raw_package message =
      let dumped = dumps message in
      let size = length dumped in
      (header_name ++ 32 ∷ decimal (suc size) size) ++ 13 ∷ 10 ∷ 13 ∷ 10 ∷ dumped
