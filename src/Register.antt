-- ===== src/Register.antt =====
-- client/src/pages/Register.tsx: the rules of the form; Flow has the handlers. `lower` is `toLowerCase`. A length counts characters, where JavaScript counts one outside the basic plane
-- twice.
pub mod Flow
pub mod Requests
pub mod Offers
use Prim.Native.Char.{Char, code}
use Prim.Native.String
use dfchat.Common.{
  ℕ, suc, ◌+◌, String, Bool, true, false, not, ◌&&◌, ◌||◌, Option, none, some, List, [], ◌∷◌, ltb,
  leb, nat_eq, if◌then◌else◌, ◌or_else◌, ◌==◌, any, all, is_some, ◌⊎◌, inl, inr,
}
use dfchat.View.Text.{is_space, is_word, trim}
use dfchat.Markdown.Inline.{is_blank, strip, run_of, after_run}

abbrev pub size : String → ℕ
size String.[] = 0
size (String.◌∷◌ c s) = suc (size s)

abbrev pub all_chars : (Char → Bool) → String → Bool
all_chars p String.[] = true
all_chars p (String.◌∷◌ c s) = p c && all_chars p s

abbrev pub any_char : (Char → Bool) → String → Bool
any_char p String.[] = false
any_char p (String.◌∷◌ c s) = p c || any_char p s

abbrev pub trivial_passwords : List String
trivial_passwords =
    "password" ∷ "password1" ∷ "password123" ∷ "qwerty" ∷ "qwerty123" ∷ "12345678" ∷ "123456789"
    ∷ "1234567890" ∷ "abcdefgh" ∷ "abcd1234" ∷ "11111111" ∷ "00000000" ∷ "iloveyou" ∷ "admin123"
    ∷ "letmein" ∷ "welcome" ∷ "monkey" ∷ "dragon" ∷ "dfchat" ∷ "dfchat123" ∷ "woaini1314"
    ∷ "5201314" ∷ "qaz123" ∷ "asd123" ∷ []

abbrev pub disposable_domains : List String
disposable_domains =
    "mailinator.com" ∷ "10minutemail.com" ∷ "guerrillamail.com" ∷ "yopmail.com" ∷ "tempmail.com"
    ∷ "temp-mail.org" ∷ "throwawaymail.com" ∷ "trashmail.com" ∷ "sharklasers.com" ∷ "maildrop.cc"
    ∷ "getnada.com" ∷ "dispostable.com" ∷ "example.com" ∷ "example.org" ∷ "example.net" ∷ []

abbrev pub is_digit : Char → Bool
is_digit c = leb 48 (code c) && leb (code c) 57

abbrev pub is_ascii_letter : Char → Bool
is_ascii_letter c = (leb 65 (code c) && leb (code c) 90) || (leb 97 (code c) && leb (code c) 122)

-- the class of `checkPassword`, up to U+FFFF, which a character outside the basic plane matches by its surrogates
abbrev pub is_letter : Char → Bool
is_letter c = is_ascii_letter c || leb 192 (code c)

-- Every character is `pw[0]`, which is half of one outside the basic plane.
abbrev pub all_same : String → Bool
all_same String.[] = false
all_same (String.◌∷◌ c s) = leb (code c) 65535 && all_chars (λ d. nat_eq (code d) (code c)) s

abbrev pub one_if : Bool → ℕ
one_if true = 1
one_if false = 0

unfoldable pub classes : String → ℕ
classes pw =
    one_if (any_char is_digit pw)
    + (one_if (any_char (λ c. not (is_digit c) && is_letter c) pw)
        + one_if (any_char (λ c. not (is_digit c) && not (is_letter c)) pw))

-- `checkPassword`: whether each of its rules holds
unfoldable pub check_password : (String → String) → String → List Bool
check_password lower pw =
    (leb 8 (size pw) && leb (size pw) 72)
    ∷ leb 2 (classes pw)
    ∷ not (all_same pw)
    ∷ (is_blank pw || not (any (λ t. t == lower pw) trivial_passwords))
    ∷ []

-- USERNAME_RE
abbrev pub username_ok : String → Bool
username_ok s = all_chars is_word s && (leb 5 (size s) && leb (size s) 32)

-- `[^\s@]`
abbrev pub is_address : Char → Bool
is_address c = not (is_space c || nat_eq (code c) b'@')

-- a dot before the last character
abbrev pub dotted : String → Bool
dotted String.[] = false
dotted (String.◌∷◌ d t) = (nat_eq (code d) b'.' && not (is_blank t)) || dotted t

-- a dot after the first character and before the last
unfoldable pub dot_inside : String → Bool
dot_inside String.[] = false
dot_inside (String.◌∷◌ c s) = dotted s

-- EMAIL_RE, with the part after the `@` of a text that it matches
unfoldable pub email_domain : String → Option String
email_domain s =
    let domain = elim (strip "@" (after_run is_address s)) as (λ o. String) [
      | none ↦ ""
      | some d ↦ d
    ] in
    if not (is_blank (run_of is_address s)) && (all_chars is_address domain && dot_inside domain)
    then some domain
    else none

-- `checkEmail`: whether the address is taken, and the reason
unfoldable pub check_email : (String → String) → String → Bool × Option String
check_email lower email =
    let trimmed = trim email in
    let found : Bool × Option String = elim (email_domain trimmed) [
      | none ↦ (false, some "邮箱格式不正确")
      | some domain ↦
          if ltb 128 (size trimmed)
          then (false, some "邮箱过长")
          else if any (λ d. d == lower domain) disposable_domains
          then (false, some "不接受一次性邮箱，请用真实邮箱")
          else (true, none)
    ] in
    if trimmed == "" then (false, none) else found

-- `strength`, where a letter is one of ASCII and anything else is a symbol
unfoldable pub strength : String → ℕ
strength pw =
    let digit = any_char is_digit pw in
    let letter = any_char is_ascii_letter pw in
    let symbol = any_char (λ c. not (is_digit c || is_ascii_letter c)) pw in
    if is_blank pw
    then 0
    else one_if (leb 12 (size pw))
      + (one_if (digit && letter) + (one_if symbol + one_if (leb 16 (size pw))))
