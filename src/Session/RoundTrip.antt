-- ===== src/Session/RoundTrip.antt =====
-- komsession.py: a text that was made by `create_new_text`, read by `KomText.__init__`.

use pylyskom.Base.{
  ℕ, ◌≡◌, refl, sym, ap, ◌∙◌, inl, inr, Bytes, List, [], ◌∷◌, ◌++◌, contains, false, Bool-cases,
  Option, none, some,
}
use pylyskom.Result.{Result, ok, raise}
use pylyskom.Connection.{bytes_eq}
use pylyskom.Datatypes.AuxItem.{AuxItem, AuxItemInput}
use pylyskom.Datatypes.MiscInfo.{MiRecipient, MiCommentTo}
use pylyskom.Requests.Request.{◌>>=◌}
use pylyskom.Session.Stored.{AreStored, IsAscii, content_type_of-items_of}
use pylyskom.Utils.Mime
use pylyskom.Utils.Mime.{
  MimeType, Str, Params, Decoding, decoded, decode_text, parse_content_type, mime_type_tuple_to_str,
  named, known_encoding, text_type, charset, param, without_param,
}
use pylyskom.Session.Compose.{
  body_str, NewText, utf_8, encode_utf8, text_fulltext, fulltext_of, final_type, reparsed,
  create_new_text, recipients_of, comments_of, items_of,
}
use pylyskom.Session.Encoding.{
  split_line-joined, encode_utf8-append, encode_utf8-clean, encode_utf8-line,
}
use pylyskom.Session.Reading.{
  content_type_of, split_line, decode_line, decode_body, with_subject, decode_parts, parts_as,
  read_parts,
}

-- A charset behind parameters without one is found, and taken off again.
param-last :
    (l : Params) (v : Str)
    → param charset l ≡ none
    → (param charset (l ++ (charset, v) ∷ []) ≡ some v)
      × (without_param charset (l ++ (charset, v) ∷ []) ≡ l)
unfolding param without_param bytes_eq
param-last [] v h = (refl, refl)
param-last ((k, w) ∷ l) v h = elim (Bool-cases (bytes_eq k charset)) [
  | inl same ↦ let x : some w ≡ none = (rw same at h) in absurd cc
  | inr other ↦
      let (found, left) = param-last l v ((rw other at h)) in
      rw other (found, ap (λ z. (k, w) ∷ z) left)
]

without_param-none : (l : Params) → param charset l ≡ none → without_param charset l ≡ l
unfolding param without_param
without_param-none [] h = refl
without_param-none ((k, w) ∷ l) h = elim (Bool-cases (bytes_eq k charset)) [
  | inl same ↦ let x : some w ≡ none = (rw same at h) in absurd cc
  | inr other ↦ rw other (ap (λ z. (k, w) ∷ z) (without_param-none l ((rw other at h))))
]

abbrev pub text_with : Str → Params → MimeType
text_with sub l = record { main = text_type; sub = sub; params = l }

abbrev pub in_utf_8 : Str → Params → MimeType
in_utf_8 sub l = text_with sub (l ++ (charset, utf_8) ∷ [])

pub ok-same : {A : Type 0} {a b : A} → ok a ≡ ok b → a ≡ b
ok-same e = cc

-- Where a text was made, its parts were.
made-parts :
    (f : Result Bytes) (r : Result (List MiRecipient)) (c : Result (List MiCommentTo))
    (i : Result (List AuxItemInput)) (t : NewText)
    → (do
      fulltext ← f
      recipients ← r
      comments ← c
      items ← i
      ok (record {
        fulltext = fulltext;
        recipient_list = recipients;
        comment_to_list = comments;
        items = items;
      }))
      ≡ ok t
    → (f ≡ ok t.fulltext) × (i ≡ ok t.items)
made-parts (ok x) (ok y) (ok z) (ok w) t e =
    (ap (λ n. ok n.fulltext) (ok-same e), ap (λ n. ok n.items) (ok-same e))
made-parts (raise k) r c i t e = absurd cc
made-parts (ok x) (raise k) c i t e = absurd cc
made-parts (ok x) (ok y) (raise k) i t e = absurd cc
made-parts (ok x) (ok y) (ok z) (raise k) t e = absurd cc

module _ (decode : Str → Bytes → Decoding) (parse_mime_type : Str → Result MimeType) where
  -- The codec for utf-8 decodes what was encoded of `s`.
  abbrev pub Decodes : Str → Type 0
  Decodes s = (x : Bytes) → encode_utf8 s ≡ ok x → decode utf_8 x ≡ decoded s

  decoded-utf_8 :
      (s : Str) (x : Bytes)
      → Decodes s
      → encode_utf8 s ≡ ok x
      → decode_text decode x (some utf_8) ≡ ok s
  unfolding decode_text
  decoded-utf_8 s x codec e = rw (codec x e, decode_text) refl

  -- The parts of a text whose type is text, in utf-8.
  decode_parts-text :
      (sub : Str) (l : Params) (subject body : Str) (full : Bytes)
      → Decodes subject
      → Decodes body
      → encode_utf8 (subject ++ 10 ∷ body) ≡ ok full
      → contains subject 10 ≡ false
      → decode_parts decode (some full) (text_with sub l) (some utf_8)
        ≡ ok (some subject, some (body_str body))
  unfolding decode_parts decode_line decode_body with_subject bytes_eq
  decode_parts-text sub l subject body full decodes decodes' e clean =
      let (es, z, first, second, joined) = encode_utf8-append subject (10 ∷ body) full e in
      let (eb, third, line) = encode_utf8-line body z second in
      let cut : split_line full ≡ (some es, eb) =
        ap split_line (joined ∙ ap (λ v. es ++ v) line)
        ∙ split_line-joined es eb (encode_utf8-clean subject es first clean) in
      rw
        (
          ap (λ v. v.0) cut,
          ap (λ v. v.1) cut,
          decoded-utf_8 subject es decodes first,
          decoded-utf_8 body eb decodes' third,
          decode_body,
        )
        refl

  read_parts-text :
      (sub : Str) (l : Params) (subject body : Str) (full : Bytes)
      → Decodes subject
      → Decodes body
      → param charset l ≡ none
      → parse_mime_type (mime_type_tuple_to_str (in_utf_8 sub l)) ≡ ok (in_utf_8 sub l)
      → encode_utf8 (subject ++ 10 ∷ body) ≡ ok full
      → contains subject 10 ≡ false
      → read_parts decode parse_mime_type (some full) (mime_type_tuple_to_str (in_utf_8 sub l))
        ≡ ok (mime_type_tuple_to_str (text_with sub l), some subject, some (body_str body))
  unfolding read_parts parse_content_type parts_as Mime.content_type_of named known_encoding
      bytes_eq
  read_parts-text sub l subject body full decodes decodes' none_yet parsed e clean =
      let (found, left) = param-last l utf_8 none_yet in
      rw (parsed, parse_content_type)
        (rw
          (
            found,
            left,
            decode_parts-text sub l subject body full decodes decodes' e clean,
            parts_as,
          )
          (ap
            (λ p. ok (mime_type_tuple_to_str (text_with sub p), some subject, some (body_str body)))
            left))

  -- Let the utf-8 codec decode what was encoded of the subject and the body, let the content type be a
  -- text type that has no charset and, printed with `charset=utf-8`, is ASCII and read back by
  -- `parse_mime_type`. Let the server keep the bytes of a text that `create_new_text` makes, with a
  -- subject in one line, and the tags and the data of its aux-items, in their order. Then
  -- `KomText.__init__`, which looks for the content type among these aux-items, finds the same subject,
  -- the same body, and the content type without a charset.
  pub create_new_text-read_parts :
      (sub : Str) (l : Params) (subject body content_type : Str) (software : Option Str)
      (r c : List (Str × ℕ)) (t : NewText) (stored : List AuxItem)
      → Decodes subject
      → Decodes body
      → reparsed parse_mime_type content_type ≡ ok (text_with sub l)
      → param charset l ≡ none
      → IsAscii (mime_type_tuple_to_str (in_utf_8 sub l))
      → parse_mime_type (mime_type_tuple_to_str (in_utf_8 sub l)) ≡ ok (in_utf_8 sub l)
      → contains subject 10 ≡ false
      → create_new_text parse_mime_type (some subject) (body_str body) content_type software r c
        ≡ ok t
      → AreStored t.items stored
      → read_parts decode parse_mime_type (some t.fulltext) (content_type_of stored)
        ≡ ok (mime_type_tuple_to_str (text_with sub l), some subject, some (body_str body))
  unfolding create_new_text fulltext_of text_fulltext final_type bytes_eq
  create_new_text-read_parts sub l subject body content_type software r c t stored decodes decodes'
        is none_yet ascii parsed clean made kept =
      let printed : mime_type_tuple_to_str (final_type (text_with sub l))
          ≡ mime_type_tuple_to_str (in_utf_8 sub l) =
        ap (λ p. mime_type_tuple_to_str (text_with sub (p ++ (charset, utf_8) ∷ [])))
          (without_param-none l none_yet) in
      let (full, items) =
        made-parts (encode_utf8 (subject ++ 10 ∷ body)) (recipients_of r) (comments_of c)
          (items_of software (mime_type_tuple_to_str (final_type (text_with sub l)))) t
          ((rw (is, create_new_text) at made)) in
      let found =
        content_type_of-items_of software (mime_type_tuple_to_str (in_utf_8 sub l)) t.items stored
          ascii (sym (ap (items_of software) printed) ∙ items) kept in
      ap (read_parts decode parse_mime_type (some t.fulltext)) found
      ∙ read_parts-text sub l subject body t.fulltext decodes decodes' none_yet parsed full clean
