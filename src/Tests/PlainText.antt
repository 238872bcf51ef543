-- ===== src/Tests/PlainText.antt =====
-- One way to write JSON values as texts and to read them, and a cipher that hides nothing: they show
-- that what client/electron/archive.ts relies on can be had.
use Prim.Native.Char.{Char, code}
use Prim.Native.String.compare
use package.text.Mathlib.Text.{is_eq}
use dfchat.Common.{
  ℕ, zero, suc, String, ◌≡◌, refl, ◌∙◌, ap, true, false, Option, none, some, List, [], ◌∷◌, nat_eq,
  if◌then◌else◌, ◌==◌, arith,
}
use dfchat.Types.{
  Json, Items, Fields, null, boolean, number, text, array, object, nil, cons, end, field,
}
use dfchat.Archive.{Cipher, JsonText}

-- A value on the stack of the reader.
pub data Token : Type 0 where
  value : Json → Token
  items : Items → Token
  fields : Fields → Token
  digits : ℕ → Token
  letters : String → Token

-- An operator and its letter.
abbrev op : Char → String → String
op c s = String.◌∷◌ c (String.◌∷◌ "_" s)

unfoldable pub write_digits : ℕ → String → String
write_digits zero s = op "z" s
write_digits (suc n) s = op "s" (write_digits n s)

unfoldable pub write_letters : String → String → String
write_letters String.[] s = op "q" s
write_letters (String.◌∷◌ c t) s = String.◌∷◌ "k" (String.◌∷◌ c (write_letters t s))

unfoldable mutual
  pub write : Json → String → String
  write null s = op "u" s
  write (boolean true) s = op "t" s
  write (boolean false) s = op "f" s
  write (number n) s = op "d" (write_digits n s)
  write (text t) s = op "x" (write_letters t s)
  write (array is) s = op "a" (write_items is s)
  write (object fs) s = op "o" (write_fields fs s)

  pub write_items : Items → String → String
  write_items nil s = op "n" s
  write_items (cons j is) s = op "c" (write j (write_items is s))

  pub write_fields : Fields → String → String
  write_fields end s = op "e" s
  write_fields (field k j fs) s = op "p" (write_letters k (write j (write_fields fs s)))

-- What the first of two letters asks for.
pub data Operator : Type 0 where
  zero_digit one_more no_letters letter a_null a_true a_false a_number a_text an_array an_object
        no_items an_item no_fields a_field braces unknown :
      Operator

unfoldable pub operator_of : ℕ → Operator
operator_of n =
    if nat_eq n b'z'
    then zero_digit
    else (if nat_eq n b's'
        then one_more
        else (if nat_eq n b'q'
            then no_letters
            else (if nat_eq n b'k'
                then letter
                else (if nat_eq n b'u'
                    then a_null
                    else (if nat_eq n b't'
                        then a_true
                        else (if nat_eq n b'f'
                            then a_false
                            else (if nat_eq n b'd'
                                then a_number
                                else (if nat_eq n b'x'
                                    then a_text
                                    else (if nat_eq n b'a'
                                        then an_array
                                        else (if nat_eq n b'o'
                                            then an_object
                                            else (if nat_eq n b'n'
                                                then no_items
                                                else (if nat_eq n b'c'
                                                    then an_item
                                                    else (if nat_eq n b'e'
                                                        then no_fields
                                                        else (if nat_eq n b'p'
                                                            then a_field
                                                            else (if nat_eq n b'{'
                                                            then braces
                                                            else (unknown))))))))))))))))

unfoldable pub apply : Operator → Char → List Token → List Token
apply zero_digit l ts = digits 0 ∷ ts
apply one_more l (digits n ∷ ts) = digits (suc n) ∷ ts
apply no_letters l ts = letters "" ∷ ts
apply letter l (letters t ∷ ts) = letters (String.◌∷◌ l t) ∷ ts
apply a_null l ts = value null ∷ ts
apply a_true l ts = value (boolean true) ∷ ts
apply a_false l ts = value (boolean false) ∷ ts
apply a_number l (digits n ∷ ts) = value (number n) ∷ ts
apply a_text l (letters t ∷ ts) = value (text t) ∷ ts
apply an_array l (items is ∷ ts) = value (array is) ∷ ts
apply an_object l (fields fs ∷ ts) = value (object fs) ∷ ts
apply no_items l ts = items nil ∷ ts
apply an_item l (value j ∷ items is ∷ ts) = items (cons j is) ∷ ts
apply no_fields l ts = fields end ∷ ts
apply a_field l (letters k ∷ value j ∷ fields fs ∷ ts) = fields (field k j fs) ∷ ts
apply braces l ts = value (object end) ∷ ts
apply _ l ts = []

unfoldable pub read : String → List Token
read String.[] = []
read (String.◌∷◌ c String.[]) = []
read (String.◌∷◌ c (String.◌∷◌ l s)) = apply (operator_of (code c)) l (read s)

read-write_digits : (n : ℕ) (s : String) → read (write_digits n s) ≡ digits n ∷ read s
unfolding read write_digits apply operator_of
read-write_digits zero s = refl
read-write_digits (suc n) s = ap (apply one_more "_") (read-write_digits n s)

read-write_letters : (t s : String) → read (write_letters t s) ≡ letters t ∷ read s
unfolding read write_letters apply operator_of
read-write_letters String.[] s = refl
read-write_letters (String.◌∷◌ c t) s = ap (apply letter c) (read-write_letters t s)

mutual
  unfolding read write apply operator_of

  read-write : (j : Json) (s : String) → read (write j s) ≡ value j ∷ read s
  read-write null s = refl
  read-write (boolean true) s = refl
  read-write (boolean false) s = refl
  read-write (number n) s = ap (apply a_number "_") (read-write_digits n s)
  read-write (text t) s = ap (apply a_text "_") (read-write_letters t s)
  read-write (array is) s = ap (apply an_array "_") (read-write_items is s)
  read-write (object fs) s = ap (apply an_object "_") (read-write_fields fs s)

  read-write_items : (is : Items) (s : String) → read (write_items is s) ≡ items is ∷ read s
  read-write_items nil s = refl
  read-write_items (cons j is) s =
      ap (apply an_item "_")
        (read-write j (write_items is s) ∙ ap (λ ts. value j ∷ ts) (read-write_items is s))

  read-write_fields : (fs : Fields) (s : String) → read (write_fields fs s) ≡ fields fs ∷ read s
  read-write_fields end s = refl
  read-write_fields (field k j fs) s = ap (apply a_field "_") (
      read-write_letters k (write j (write_fields fs s))
      ∙ ap (λ ts. letters k ∷ ts)
          (read-write j (write_fields fs s) ∙ ap (λ ts. value j ∷ ts) (read-write_fields fs s)))

unfoldable pub result : List Token → Option Json
result (value j ∷ []) = some j
result _ = none

cons_ne_empty : (c : Char) (s : String) → (String.◌∷◌ c s == "") ≡ false
cons_ne_empty c s = ap is_eq (compare.cons-nil c s)

pub write_ne_empty : (j : Json) → (write j "" == "") ≡ false
unfolding write
write_ne_empty null = refl
write_ne_empty (boolean true) = refl
write_ne_empty (boolean false) = refl
write_ne_empty (number n) = cons_ne_empty "d" _
write_ne_empty (text t) = cons_ne_empty "x" _
write_ne_empty (array is) = cons_ne_empty "a" _
write_ne_empty (object fs) = cons_ne_empty "o" _

pub result-read-write : (j : Json) → result (read (write j "")) ≡ some j
unfolding read result
result-read-write j = ap result (read-write j "")

pub read_braces : result (read "{}") ≡ some (object end)
unfolding read apply operator_of result
read_braces = refl

abbrev pub json_text : JsonText
json_text = record {
  stringify = λ j. write j "";
  parse = λ s. result (read s);
  parse-stringify = result-read-write;
  stringify_ne_empty = write_ne_empty;
  parse_empty_object = read_braces;
}

pub unseal_plain : (k iv : ℕ) (s : String) → (if nat_eq k k then some s else none) ≡ some s
unseal_plain k iv s = ground arith

abbrev pub plain_cipher : Cipher
plain_cipher = record {
  Key = ℕ;
  Iv = ℕ;
  Tag = ℕ;
  Sealed = String;
  seal = λ k iv s. (k, s);
  unseal = λ k iv tag s. if nat_eq k tag then some s else none;
  unseal-seal = unseal_plain;
}
