-- ===== src/Session/Encoding.antt =====
-- komsession.py: the utf-8 encoding of a subject and a body in one text, and where it is split.
use mathlib.Core.Path.{subst}
use pylyskom.Base.{
  ℕ, ◌+◌, ◌/◌, ◌%◌, ◌<◌, ◌≡◌, refl, sym, ap, ◌∙◌, inl, inr, Bytes, [], ◌∷◌, ◌++◌, append_assoc,
  contains, true, false, ◌&&◌, Bool-cases, ◌==◌, ltb, leb, some, arith,
}
use pylyskom.Result.{Result, ok, raise}
use pylyskom.Requests.Request.{◌>>=◌}
use pylyskom.Utils.Mime.{Str}
use pylyskom.Session.Compose.{encode_char, encode_utf8}
use pylyskom.Session.Reading.{split_line}

pub split_line-joined :
    (s t : Bytes) → contains s 10 ≡ false → split_line (s ++ 10 ∷ t) ≡ (some s, t)
unfolding split_line
split_line-joined [] t h = refl
split_line-joined (c ∷ s) t h = elim (Bool-cases (c == 10)) [
  | inl line ↦ let x : true ≡ false = (rw line at h) in absurd cc
  | inr other ↦
      let e = split_line-joined s t ((rw other at h)) in
      rw (other, ap (λ z. z.0) e, ap (λ z. z.1) e) refl
]

above : (n q : ℕ) → 10 < n → (n + q == 10) ≡ false
above n q h = ground (arith, h)

two_bytes : (a b : ℕ) → contains ((192 + a) ∷ (128 + b) ∷ []) 10 ≡ false
two_bytes a b = rw (above 192 a (omega arith), above 128 b (omega arith)) refl

three_bytes : (a b c : ℕ) → contains ((224 + a) ∷ (128 + b) ∷ (128 + c) ∷ []) 10 ≡ false
three_bytes a b c =
    rw (above 224 a (omega arith), above 128 b (omega arith), above 128 c (omega arith)) refl

four_bytes :
    (a b c d : ℕ) → contains ((240 + a) ∷ (128 + b) ∷ (128 + c) ∷ (128 + d) ∷ []) 10 ≡ false
four_bytes a b c d =
    rw
      (
        above 240 a (omega arith),
        above 128 b (omega arith),
        above 128 c (omega arith),
        above 128 d (omega arith),
      )
      refl

clean-ok : (x y : Bytes) → ok y ≡ ok x → contains y 10 ≡ false → contains x 10 ≡ false
clean-ok x y e h = let z : y ≡ x = cc in subst (λ v. contains v 10 ≡ false) z h

-- No character but the linefeed is encoded with a byte 10.
encode_char-clean :
    (c : ℕ) (x : Bytes) → encode_char c ≡ ok x → (c == 10) ≡ false → contains x 10 ≡ false
unfolding encode_char
encode_char-clean c x e h = elim (Bool-cases (ltb c 128)) [
  | inl one ↦ clean-ok x (c ∷ []) ((rw one at e)) (rw h refl)
  | inr more ↦ elim (Bool-cases (ltb c 2048)) [
    | inl two ↦
        clean-ok x ((192 + c / 64) ∷ (128 + c % 64) ∷ []) ((rw (more, two) at e))
          (two_bytes (c / 64) (c % 64))
    | inr more' ↦ elim (Bool-cases (leb 55296 c && ltb c 57344)) [
      | inl half ↦ let y : raise _ ≡ ok x = (rw (more, more', half) at e) in absurd cc
      | inr whole ↦ elim (Bool-cases (ltb c 65536)) [
        | inl three ↦
            clean-ok x ((224 + c / 4096) ∷ (128 + (c / 64) % 64) ∷ (128 + c % 64) ∷ [])
              ((rw (more, more', whole, three) at e))
              (three_bytes (c / 4096) ((c / 64) % 64) (c % 64))
        | inr four ↦
            clean-ok x
              ((240 + c / 262144)
                ∷ (128 + (c / 4096) % 64)
                ∷ (128 + (c / 64) % 64)
                ∷ (128 + c % 64)
                ∷ [])
              ((rw (more, more', whole, four) at e))
              (four_bytes (c / 262144) ((c / 4096) % 64) ((c / 64) % 64) (c % 64))
      ]
    ]
  ]
]

contains-append :
    (x y : Bytes) → contains x 10 ≡ false → contains y 10 ≡ false → contains (x ++ y) 10 ≡ false
contains-append [] y h k = k
contains-append (c ∷ x) y h k = elim (Bool-cases (c == 10)) [
  | inl line ↦ let z : true ≡ false = (rw line at h) in absurd cc
  | inr other ↦ rw other (contains-append x y ((rw other at h)) k)
]

-- The encoding of a str is that of its first character, and of the rest.
encode_utf8-parts :
    (r r' : Result Bytes) (x : Bytes)
    → (do y ← r; rest ← r'; ok (y ++ rest)) ≡ ok x
    → (y : Bytes) × (z : Bytes) × (r ≡ ok y) × (r' ≡ ok z) × (y ++ z ≡ x)
encode_utf8-parts (ok y) (ok z) x e = (y, z, refl, refl, cc)
encode_utf8-parts (ok y) (raise k) x e = absurd cc
encode_utf8-parts (raise k) r' x e = absurd cc

pub encode_utf8-clean :
    (s : Str) (x : Bytes) → encode_utf8 s ≡ ok x → contains s 10 ≡ false → contains x 10 ≡ false
unfolding encode_utf8
encode_utf8-clean [] x e h = clean-ok x [] e refl
encode_utf8-clean (c ∷ s) x e h =
    let (y, z, first, rest, joined) = encode_utf8-parts (encode_char c) (encode_utf8 s) x e in
    elim (Bool-cases (c == 10)) [
      | inl line ↦ let w : true ≡ false = (rw line at h) in absurd cc
      | inr other ↦
          subst (λ v. contains v 10 ≡ false) joined
            (contains-append y z (encode_char-clean c y first other)
              (encode_utf8-clean s z rest ((rw other at h))))
    ]

pub encode_utf8-append :
    (s t : Str) (x : Bytes)
    → encode_utf8 (s ++ t) ≡ ok x
    → (y : Bytes) × (z : Bytes) × (encode_utf8 s ≡ ok y) × (encode_utf8 t ≡ ok z) × (x ≡ y ++ z)
unfolding encode_utf8
encode_utf8-append [] t x e = ([], x, refl, e, refl)
encode_utf8-append (c ∷ s) t x e =
    let (y, z, first, rest, joined) =
      encode_utf8-parts (encode_char c) (encode_utf8 (s ++ t)) x e in
    let (u, v, left, right, joined') = encode_utf8-append s t z rest in
    (
      y ++ u,
      v,
      rw (first, left) refl,
      right,
      sym joined ∙ ap (λ w. y ++ w) joined' ∙ sym (append_assoc y u v),
    )

pub encode_utf8-line :
    (body : Str) (z : Bytes)
    → encode_utf8 (10 ∷ body) ≡ ok z
    → (b : Bytes) × (encode_utf8 body ≡ ok b) × (z ≡ 10 ∷ b)
unfolding encode_utf8 encode_char
encode_utf8-line body z e =
    let (y, b, first, rest, joined) = encode_utf8-parts (ok (10 ∷ [])) (encode_utf8 body) z e in
    let is : 10 ∷ [] ≡ y = cc in (b, rest, sym (ap (λ v. v ++ b) is ∙ joined))
