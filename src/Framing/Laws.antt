-- ===== src/Framing/Laws.antt =====
-- What is written is read back.
use lsp_client.Base.{
  ℕ, suc, ◌<◌, ◌≡◌, refl, ap, ◌∙◌, false, some, [], ◌∷◌, ◌++◌, ◌==◌, length, arith, All,
}
use Prim.Native.Nat.{◌^◌}
use mathlib.Core.List.{append_assoc}
use lsp_client.Base.Exec.{ok}
use lsp_client.Framing.{
  Bytes, decimal, ByteStream, Json, header_name, header_length, read_raw_package, write_raw_package,
  with_body, skip_spaces,
}
use lsp_client.Framing.Decimal.{Digits, decimal-Digits, read_number-decimal, length-decimal-le}

-- A line without a carriage return, shorter than the 65536 bytes that are looked through.
abbrev pub IsLine : Bytes → Type 0
IsLine l = All (λ c. (c == 13) ≡ false) l × (length l < 65536)

-- What the code relies on in the stream: `feed s` is the stream whose bytes to come are `s`.
pub record StreamLaws (b : ByteStream) : Type 0 where
  pub feed : Bytes → b.Stream
  pub receive_until-line :
      (l rest : Bytes) → IsLine l → b.receive_until (feed (l ++ 13 ∷ 10 ∷ rest)) ≡ ok (l, feed rest)
  pub receive_exactly-all :
      (s rest : Bytes) → b.receive_exactly (length s) (feed (s ++ rest)) ≡ ok (s, feed rest)

-- And in JSON: what is dumped loads, and is never empty.
pub record JsonLaws (j : Json) : Type 0 where
  pub loads-dumps : (p : j.Package) → j.loads (j.dumps p) ≡ ok p
  pub dumps_pos : (p : j.Package) → 0 < length (j.dumps p)

-- The header line of a body of a length.
abbrev header : ℕ → Bytes
header n = header_name ++ 32 ∷ decimal (suc n) n

skip-Digits : (s : Bytes) → Digits s → skip_spaces s ≡ s
unfolding skip_spaces
skip-Digits [] d = refl
skip-Digits (c ∷ s) d = ground (arith, d.0)

header_length-header : (n : ℕ) → header_length (header n) ≡ some n
unfolding header_length
header_length-header n =
    rw (skip-Digits (decimal (suc n) n) (decimal-Digits (suc n) n), skip_spaces)
      (read_number-decimal (suc n) n (omega arith))

All-Digits-no_cr : (s : Bytes) → Digits s → All (λ c. (c == 13) ≡ false) s
All-Digits-no_cr [] d = tt
All-Digits-no_cr (c ∷ s) d = (ground (arith, d.0), All-Digits-no_cr s d.1)

All-append_both {κ} : (P : ℕ → Type κ) (xs ys : Bytes) → All P xs → All P ys → All P (xs ++ ys)
All-append_both P [] ys a b = b
All-append_both P (x ∷ xs) ys a b = (a.0, All-append_both P xs ys a.1 b)

header-IsLine : (n : ℕ) → n < 10 ^ 20 → IsLine (header n)
header-IsLine n h =
    let short = length-decimal-le 19 (suc n) n h in
    (
      All-append_both (λ c. (c == 13) ≡ false) header_name (32 ∷ decimal (suc n) n)
          (
            refl,
            (
              refl,
              (
                refl,
                (
                  refl,
                  (
                    refl,
                    (
                      refl,
                      (refl, (refl, (refl, (refl, (refl, (refl, (refl, (refl, (refl, tt))))))))),
                    ),
                  ),
                ),
              ),
            ),
          )
          (refl, All-Digits-no_cr (decimal (suc n) n) (decimal-Digits (suc n) n)),
      omega (arith, short),
    )

-- The header line behind its first letter.
header_tail : ℕ → Bytes
header_tail n =
    b'o'
    ∷ b'n'
    ∷ b't'
    ∷ b'e'
    ∷ b'n'
    ∷ b't'
    ∷ b'-'
    ∷ b'L'
    ∷ b'e'
    ∷ b'n'
    ∷ b'g'
    ∷ b't'
    ∷ b'h'
    ∷ b':'
    ∷ 32
    ∷ decimal (suc n) n

header_tail-IsLine : (n : ℕ) → n < 10 ^ 20 → IsLine (b'C' ∷ header_tail n)
unfolding header_tail
header_tail-IsLine n h = header-IsLine n h

header_length-tail : (n : ℕ) → header_length (b'C' ∷ header_tail n) ≡ some n
unfolding header_tail
header_length-tail n = header_length-header n

module _ (b : ByteStream) (j : Json) (bl : StreamLaws b) (jl : JsonLaws j) where
  write_raw_package-eq :
      (p : j.Package) (rest : Bytes)
      → write_raw_package b j p ++ rest
        ≡ (b'C' ∷ header_tail (length (j.dumps p)))
          ++ 13 ∷ 10 ∷ ([] ++ 13 ∷ 10 ∷ (j.dumps p ++ rest))
  unfolding write_raw_package header_tail
  write_raw_package-eq p rest =
      append_assoc (header (length (j.dumps p))) (13 ∷ 10 ∷ 13 ∷ 10 ∷ j.dumps p) rest

  -- A package of less than 10 ^ 20 bytes that is written is read back, whatever follows it on the
  -- stream, and reading stops just behind it. The stream gives the bytes that it holds, and what
  -- JSON dumps it loads.
  pub read-write_raw_package :
      (p : j.Package) (rest : Bytes)
      → length (j.dumps p) < 10 ^ 20
      → read_raw_package b j (bl.feed (write_raw_package b j p ++ rest)) ≡ ok (p, bl.feed rest)
  unfolding read_raw_package
  read-write_raw_package p rest h =
      let d : Bytes = j.dumps p in
      let n : ℕ = length d in
      let body : Bytes = [] ++ 13 ∷ 10 ∷ (d ++ rest) in
      let line = bl.receive_until-line (b'C' ∷ header_tail n) body (header_tail-IsLine n h) in
      let blank : b.receive_until (bl.feed body) ≡ ok ([], bl.feed (d ++ rest)) =
        bl.receive_until-line [] (d ++ rest) (tt, omega arith) in
      let some_bytes : (n == 0) ≡ false = ground (arith, jl.dumps_pos p) in
      let read : read_raw_package b j (bl.feed ((b'C' ∷ header_tail n) ++ 13 ∷ 10 ∷ body))
          ≡ ok (p, bl.feed rest) =
        ground (
          arith,
          line,
          header_length-tail n,
          some_bytes,
          blank,
          bl.receive_exactly-all d rest,
          jl.loads-dumps p,
        ) in
      ap (λ (s : Bytes). read_raw_package b j (bl.feed s)) (write_raw_package-eq p rest) ∙ read

  -- A package with a body that is not empty and a second header line, such as `Content-Type`,
  -- behind `Content-Length`: that line is taken for the blank one, and as many bytes as the body
  -- has are read from the line end before the body. The line has no carriage return and fits the
  -- 65536 bytes that are looked through, and the body is shorter than 10 ^ 20 bytes.
  pub read_raw_package-second_header :
      (d l rest : Bytes)
      → 0 < length d
      → length d < 10 ^ 20
      → IsLine l
      → read_raw_package b j (
          bl.feed (
            (header_name ++ 32 ∷ decimal (suc (length d)) (length d))
            ++ 13 ∷ 10 ∷ (l ++ 13 ∷ 10 ∷ 13 ∷ 10 ∷ (d ++ rest))))
        ≡ with_body b j (b.receive_exactly (length d) (bl.feed (13 ∷ 10 ∷ (d ++ rest))))
  unfolding read_raw_package header_tail
  read_raw_package-second_header d l rest pos h il =
      let n : ℕ = length d in
      let after : Bytes = 13 ∷ 10 ∷ (d ++ rest) in
      let body : Bytes = l ++ 13 ∷ 10 ∷ after in
      let some_bytes : (n == 0) ≡ false = ground (arith, pos) in
      let line : b.receive_until (bl.feed (header n ++ 13 ∷ 10 ∷ body))
          ≡ ok (b'C' ∷ header_tail n, bl.feed body) =
        bl.receive_until-line (header n) body (header-IsLine n h) in
      let blank : b.receive_until (bl.feed body) ≡ ok (l, bl.feed after) =
        bl.receive_until-line l after il in
      rw line (rw (header_length-header n) (rw some_bytes (rw blank)))
