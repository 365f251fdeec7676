-- ===== src/Sample.antt =====
-- A host with its files in memory, for the tests: a path is its list of parts, that of an absolute
-- path starting with "", and a URI is such a path with slashes.
pub mod Paths
pub mod Wire
pub mod World
use Prim.Native.Char.{Char, code}
use Prim.Native.String
use Prim.Native.String.{◌++◌ as append_text}
use lsp_client.Base.{
  ℕ, zero, suc, ◌≡◌, refl, String, Bool, true, false, ◌&&◌, not, Option, none, some, List, [], ◌∷◌,
  ◌++◌, ◌==◌, if◌then◌else◌, length, drop, str_eq, is_some, arith, eq_iff, eq_refl, ap, sym, ◌∙◌,
}
use lsp_client.Base.Dict.{Dict, lookup, member, insert, remove}
use lsp_client.Base.Exec.{Result, ok, err, Exec}
use lsp_client.Host.{Host, Text, Error, os_error}

abbrev push : Char → List String → List String
push c [] = (String.◌∷◌ c "") ∷ []
push c (s ∷ ss) = (String.◌∷◌ c s) ∷ ss

abbrev split_slashes : String → List String
split_slashes String.[] = "" ∷ []
split_slashes (String.◌∷◌ c cs) =
    let rest = split_slashes cs in if code c == b'/' then "" ∷ rest else push c rest

abbrev pub join_slashes : List String → String
join_slashes [] = ""
join_slashes (s ∷ []) = s
join_slashes (s ∷ t ∷ ts) = append_text s (append_text "/" (join_slashes (t ∷ ts)))

abbrev pub is_absolute : List String → Bool
is_absolute [] = false
is_absolute (s ∷ ss) = str_eq s ""

abbrev pub is_prefix : List String → List String → Bool
is_prefix [] p = true
is_prefix (s ∷ q) [] = false
is_prefix (s ∷ q) (t ∷ p) = str_eq s t && is_prefix q p

abbrev last_part : List String → String
last_part [] = ""
last_part (s ∷ []) = s
last_part (s ∷ t ∷ ts) = last_part (t ∷ ts)

abbrev all_but_last : List String → List String
all_but_last [] = []
all_but_last (s ∷ []) = []
all_but_last (s ∷ t ∷ ts) = s ∷ all_but_last (t ∷ ts)

abbrev contents : Option Text → Result Error Text
contents none = err os_error
contents (some t) = ok t

abbrev moved_file : String → String → Option Text → Exec (Dict Text) Error (Unit {0})
moved_file old new none fs = (err os_error, fs)
moved_file old new (some t) fs = (ok tt, insert new t (remove old fs))

abbrev pub memory_host : Host
memory_host = record {
  FilePath = List String;
  url_path = λ s. s;
  url2pathname = λ s. s;
  unquote = λ s. s;
  path = split_slashes;
  parent = all_but_last;
  name = last_part;
  is_absolute = is_absolute;
  is_relative_to = λ p q. is_prefix q p && not (is_absolute (drop (length q) p));
  relative_to = λ p q. drop (length q) p;
  join = λ p q. if is_absolute q then q else p ++ q;
  parts = λ p. p;
  from_parts = λ p. p;
  resolve = λ p. p;
  as_file_uri = join_slashes;
  Fs = Dict Text;
  exists = λ p fs. member (join_slashes p) fs;
  is_dir = λ p fs. false;
  is_file = λ p fs. member (join_slashes p) fs;
  read_bytes = λ p fs. contents (lookup (join_slashes p) fs);
  read_text = λ p e fs. contents (lookup (join_slashes p) fs);
  write_text = λ p t e fs. (ok tt, insert (join_slashes p) t fs);
  mkdir = λ p fs. (ok tt, fs);
  unlink = λ p fs. (ok tt, remove (join_slashes p) fs);
  rename = λ p q fs. moved_file (join_slashes p) (join_slashes q) (lookup (join_slashes p) fs) fs;
  rmdir = λ p fs. (ok tt, remove (join_slashes p) fs);
  rmtree = λ p fs. (ok tt, remove (join_slashes p) fs);
  best_match = λ bytes. some (bytes, "utf-8");
}
