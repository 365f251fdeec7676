-- ===== src/Lsp.antt =====
-- The message types of the protocol that the client takes apart (`lsprotocol.types`), with the
-- fields that it reads. Positions count code points of a line here, as the client's slices do.
use lsp_client.Base.{ℕ, Bool, ◌&&◌, ◌||◌, ltb, leb, ◌==◌}

pub record Position : Type 0 where
  pub line : ℕ
  pub character : ℕ

pub record Range : Type 0 where
  pub start : Position
  pub end : Position

-- `(p.line, p.character) <= (q.line, q.character)`, and the strict order
abbrev pub le_pos : Position → Position → Bool
le_pos p q = ltb p.line q.line || (p.line == q.line && leb p.character q.character)

abbrev pub lt_pos : Position → Position → Bool
lt_pos p q = ltb p.line q.line || (p.line == q.line && ltb p.character q.character)
