-- ===== src/Requests/Signatures.antt =====
-- capability/request/signature_help.py, hover.py, and `get_inlay_hint_label` of inlay_hint.py.
use Prim.Native.String.{◌++◌ as append_text}
use lsp_client.Base.{
  ℕ, String, Bool, Option, none, some, List, [], ◌∷◌, map, if◌then◌else◌, is_some, ltb, length,
  get_elem?,
}
use lsp_client.Base.Int.{ℤ, pos, negsuc}
use lsp_client.Base.Exec.{◌>>=◌, pure}
use lsp_client.Host.{Host}
use lsp_client.Lsp.{Position}
use lsp_client.Client.{Settings, Action}
use lsp_client.Requests.{TextDocumentPosition, at_position}

pub record SignatureInformation : Type 0 where
  pub label : String
  pub active_parameter : Option ℕ

pub record SignatureHelp : Type 0 where
  pub signatures : List SignatureInformation
  -- an `int` of the answer, which may be negative
  pub active_signature : Option ℤ
  pub active_parameter : Option ℕ

pub record SignatureHelpParams : Type 0 where
  pub at : TextDocumentPosition
  -- 1 is `Invoked` and 2 `TriggerCharacter`
  pub trigger_kind : ℕ
  pub trigger_character : Option String
  pub is_retrigger : Bool
  pub active_signature_help : Option SignatureHelp

abbrev pub or_else {ℓ} : {A : Type ℓ} → Option A → A → A
or_else none default = default
or_else (some a) default = a

-- `a if a is not None else b`
abbrev pub prefer {ℓ} : {A : Type ℓ} → Option A → Option A → Option A
prefer none b = b
prefer (some a) b = some a

-- `sig_idx if 0 <= sig_idx < n else 0`
abbrev pub in_bounds : ℤ → ℕ → ℕ
in_bounds (negsuc k) n = 0
in_bounds (pos i) n = if ltb i n then i else 0

-- The index of the active signature, 0 if there is none or it is out of range.
unfoldable pub signature_index : SignatureHelp → ℕ
signature_index res = in_bounds (or_else res.active_signature (pos 0)) (length res.signatures)

abbrev pub evolve : Option ℕ → SignatureInformation → SignatureInformation
evolve active_param sig = record sig { active_parameter = prefer active_param sig.active_parameter }

abbrev evolve_found : Option ℕ → Option SignatureInformation → Option SignatureInformation
evolve_found active_param none = none
evolve_found active_param (some sig) = some (evolve active_param sig)

-- From `if not res or not res.signatures: return None` on.
unfoldable pub active_signature : Option SignatureHelp → Option SignatureInformation
unfolding signature_index
active_signature none = none
active_signature (some res) =
    evolve_found res.active_parameter (get_elem? res.signatures (signature_index res))

module _ (h : Host) (c : Settings)
    (ask : SignatureHelpParams → Action h c (Option SignatureHelp)) where
  unfoldable pub request_signature_help :
      h.FilePath
      → Position
      → Option String
      → Option Bool
      → Option SignatureHelp
      → Option ℕ
      → Action h c (Option SignatureHelp)
  unfolding at_position
  request_signature_help file_path position trigger_character is_retrigger active trigger_kind =
      at_position h c
        (λ at. ask (record {
          at = at;
          trigger_kind = or_else trigger_kind (if is_some trigger_character then 2 else 1);
          trigger_character = trigger_character;
          is_retrigger = or_else is_retrigger (is_some active);
          active_signature_help = active;
        }))
        file_path position

  unfoldable pub request_active_signature :
      h.FilePath
      → Position
      → Option String
      → Option SignatureHelp
      → Action h c (Option SignatureInformation)
  unfolding request_signature_help active_signature ◌>>=◌
  request_active_signature file_path position trigger_character active = do
    res ← request_signature_help file_path position trigger_character none active none
    pure (active_signature res)

-- `str | MarkedStringWithLanguage`
pub data MarkedString : Type 0 where
  plain : String → MarkedString
  marked : String → String → MarkedString

pub record MarkupContent : Type 0 where
  pub kind : String
  pub value : String

pub data HoverContents : Type 0 where
  markup : MarkupContent → HoverContents
  one : MarkedString → HoverContents
  several : List MarkedString → HoverContents

abbrev block : String → String → String
block language value =
    append_text "```" (append_text language (append_text "\n" (append_text value "\n```")))

unfoldable pub to_block : MarkedString → String
to_block (marked lang val) = block lang val
to_block (plain s) = block "plaintext" s

-- `sep.join(…)`
unfoldable pub join : String → List String → String
join sep [] = ""
join sep (s ∷ []) = s
join sep (s ∷ t ∷ ts) = append_text s (append_text sep (join sep (t ∷ ts)))

unfoldable pub hover_content : HoverContents → MarkupContent
unfolding to_block join
hover_content (markup mc) = mc
hover_content (one content) = record { kind = "markdown"; value = to_block content }
hover_content (several contents) = record {
  kind = "markdown";
  value = join "\n\n" (map to_block contents);
}

abbrev hover_result : Option HoverContents → Option MarkupContent
hover_result none = none
hover_result (some contents) = some (hover_content contents)

unfoldable pub request_hover :
    (h : Host) (c : Settings)
    → (TextDocumentPosition → Action h c (Option HoverContents))
    → h.FilePath
    → Position
    → Action h c (Option MarkupContent)
unfolding at_position hover_content ◌>>=◌
request_hover h c ask file_path position = do
  hover ← at_position h c ask file_path position
  pure (hover_result hover)

-- `InlayHint.label`, and the values of its parts
pub data HintLabel : Type 0 where
  text : String → HintLabel
  parts : List String → HintLabel

unfoldable pub get_inlay_hint_label : HintLabel → String
unfolding join
get_inlay_hint_label (text label) = label
get_inlay_hint_label (parts values) = join "" values
