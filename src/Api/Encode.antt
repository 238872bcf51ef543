-- ===== src/Api/Encode.antt =====
-- `encodeURIComponent`, as ECMAScript defines it.
use Prim.Native.Char.{Char, code}
use Prim.Native.String.{◌++◌}
use Prim.Native.Nat.{◌/◌, ◌%◌}
use text.Mathlib.TextLemmas.{nil-append, cons-append}
use dfchat.Common.{
  ℕ, zero, suc, ◌+◌, String, Bool, true, false, ◌||◌, ◌≡◌, refl, List, [], ◌∷◌, ltb, nat_eq,
  if◌then◌else◌, any, arith, Bool-cases, inl, inr,
}
use dfchat.Markdown.Inline.{is_blank}
use dfchat.View.Text.{is_word}
use dfchat.Register.{all_chars}
use dfchat.Api.Url.{is_inner, is_segment}

abbrev pub is_unreserved : Char → Bool
is_unreserved c =
    is_word c || any (nat_eq (code c)) (b'-' ∷ b'.' ∷ b'!' ∷ b'~' ∷ b'*' ∷ b'\'' ∷ b'(' ∷ b')' ∷ [])

unfoldable pub nth_digit : List String → ℕ → String
nth_digit [] n = "F"
nth_digit (d ∷ ds) zero = d
nth_digit (d ∷ ds) (suc n) = nth_digit ds n

abbrev pub digits : List String
digits =
    "0" ∷ "1" ∷ "2" ∷ "3" ∷ "4" ∷ "5" ∷ "6" ∷ "7" ∷ "8" ∷ "9" ∷ "A" ∷ "B" ∷ "C" ∷ "D" ∷ "E" ∷ "F"
    ∷ []

-- a byte as `%` and two digits
unfoldable pub percent : ℕ → String
percent b = String.◌∷◌ "%" (nth_digit digits (b / 16) ++ nth_digit digits (b % 16))

-- the bytes of UTF-8: the first one, and those after it
unfoldable pub first_byte : ℕ → ℕ
first_byte n =
    if ltb n 128
    then n
    else if ltb n 2048
    then 192 + n / 64
    else if ltb n 65536
    then 224 + n / 4096
    else 240 + n / 262144

unfoldable pub later_bytes : ℕ → List ℕ
later_bytes n =
    let last = 128 + n % 64 in
    let second = 128 + (n / 64) % 64 in
    if ltb n 128
    then []
    else if ltb n 2048
    then last ∷ []
    else if ltb n 65536
    then second ∷ last ∷ []
    else (128 + (n / 4096) % 64) ∷ second ∷ last ∷ []

abbrev pub utf8 : ℕ → List ℕ
utf8 n = first_byte n ∷ later_bytes n

unfoldable pub percents : List ℕ → String
percents [] = ""
percents (b ∷ bs) = percent b ++ percents bs

unfoldable pub encode_uri_component : String → String
encode_uri_component String.[] = ""
encode_uri_component (String.◌∷◌ c s) =
    let rest = encode_uri_component s in
    if is_unreserved c then String.◌∷◌ c rest else percents (utf8 (code c)) ++ rest

all_chars-append :
    (p : Char → Bool) (s t : String)
    → all_chars p s ≡ true
    → all_chars p t ≡ true
    → all_chars p (s ++ t) ≡ true
all_chars-append p String.[] t hs ht = rw (nil-append t) ht
all_chars-append p (String.◌∷◌ c s) t hs ht =
    rw (cons-append c s t) (ground (arith, all_chars-append p s t (ground (arith, hs)) ht, hs))

AreInner : List String → Type 0
AreInner [] = Unit
AreInner (d ∷ ds) = (all_chars is_inner d ≡ true) × AreInner ds

nth_digit-inner :
    (ds : List String) (n : ℕ) → AreInner ds → all_chars is_inner (nth_digit ds n) ≡ true
unfolding nth_digit AreInner
nth_digit-inner [] n h = refl
nth_digit-inner (d ∷ ds) zero (h, hs) = h
nth_digit-inner (d ∷ ds) (suc n) (h, hs) = nth_digit-inner ds n hs

digits-AreInner : AreInner digits
unfolding AreInner
digits-AreInner = (
  refl,
  (
    refl,
    (
      refl,
      (
        refl,
        (
          refl,
          (
            refl,
            (refl, (refl, (refl, (refl, (refl, (refl, (refl, (refl, (refl, (refl, tt)))))))))),
          ),
        ),
      ),
    ),
  ),
)

percent-inner : (b : ℕ) → all_chars is_inner (percent b) ≡ true
unfolding percent
percent-inner b =
    all_chars-append is_inner (nth_digit digits (b / 16)) (nth_digit digits (b % 16))
      (nth_digit-inner digits (b / 16) digits-AreInner)
      (nth_digit-inner digits (b % 16) digits-AreInner)

percents-inner : (bs : List ℕ) → all_chars is_inner (percents bs) ≡ true
unfolding percents
percents-inner [] = refl
percents-inner (b ∷ bs) =
    all_chars-append is_inner (percent b) (percents bs) (percent-inner b) (percents-inner bs)

is_unreserved-inner : (c : Char) → is_unreserved c ≡ true → is_inner c ≡ true
is_unreserved-inner c h = ground (arith, h)

-- What is encoded has no slash and no end of a path.
encode_uri_component-inner : (s : String) → all_chars is_inner (encode_uri_component s) ≡ true
unfolding encode_uri_component
encode_uri_component-inner String.[] = refl
encode_uri_component-inner (String.◌∷◌ c s) = elim (Bool-cases (is_unreserved c)) [
  | inl h ↦ rw h (ground (arith, is_unreserved-inner c h, encode_uri_component-inner s))
  | inr h ↦ rw h (
      all_chars-append is_inner (percents (utf8 (code c))) (encode_uri_component s)
        (percents-inner (utf8 (code c))) (encode_uri_component-inner s))
]

is_blank-percents : (b : ℕ) (bs : List ℕ) (s : String) → is_blank (percents (b ∷ bs) ++ s) ≡ false
unfolding percents percent
is_blank-percents b bs s =
    let t = nth_digit digits (b / 16) ++ nth_digit digits (b % 16) in
    rw (cons-append "%" t (percents bs), cons-append "%" (t ++ percents bs) s) refl

-- A text that is not empty is one segment once it is encoded.
pub is_segment-encode_uri_component :
    (s : String) → is_blank s ≡ false → is_segment (encode_uri_component s) ≡ true
unfolding encode_uri_component
is_segment-encode_uri_component String.[] h = absurd (cc h)
is_segment-encode_uri_component (String.◌∷◌ c s) h =
    let inner = encode_uri_component-inner (String.◌∷◌ c s) in
    elim (Bool-cases (is_unreserved c)) [
      | inl h ↦ rw (inner, h) refl
      | inr h ↦
          rw
            (
              inner,
              h,
              is_blank-percents (first_byte (code c)) (later_bytes (code c))
                  (encode_uri_component s),
            )
            refl
    ]
