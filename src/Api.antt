-- ===== src/Api.antt =====
-- client/src/api/client.ts: each function as the request that it makes and what it reads off the
-- answer. A body is what JSON.stringify writes, without the fields that are undefined; a query is kept
-- as its pairs. An answer of the server is an object.
pub mod Encode
pub mod Url
pub mod Accounts
pub mod Friends
pub mod Groups
pub mod Messages
pub mod Rooms
pub mod Broadcasts
pub mod Admin
pub mod Calls
pub mod Routes
pub mod Served
use dfchat.Common.{
  ℕ, String, Bool, true, false, not, nat_eq, Option, none, some, List, [], ◌∷◌, ◌⊎◌, inl, inr,
  if◌then◌else◌, ◌==◌, map,
}
use dfchat.Markdown.Inline.{is_blank}

mutual
  pub data Json : Type 0 where
    undefined null : Json
    text : String → Json
    number : ℕ → Json
    flag : Bool → Json
    array : Items → Json
    object : Fields → Json

  pub data Items : Type 0 where
    nil : Items
    cons : Json → Items → Items

  pub data Fields : Type 0 where
    end : Fields
    field : String → Json → Fields → Fields

-- the fields that are not undefined
abbrev pub keep_field : String → Json → Fields → Fields
keep_field k undefined fs = fs
keep_field k null fs = field k null fs
keep_field k (text s) fs = field k (text s) fs
keep_field k (number n) fs = field k (number n) fs
keep_field k (flag b) fs = field k (flag b) fs
keep_field k (array xs) fs = field k (array xs) fs
keep_field k (object gs) fs = field k (object gs) fs

abbrev pub fields : List (String × Json) → Fields
fields [] = end
fields (p ∷ ps) = keep_field p.0 p.1 (fields ps)

abbrev pub optional : Option String → Json
optional none = undefined
optional (some s) = text s

abbrev pub optional_number : Option ℕ → Json
optional_number none = undefined
optional_number (some n) = number n

abbrev pub optional_flag : Option Bool → Json
optional_flag none = undefined
optional_flag (some b) = flag b

-- what URLSearchParams is given: a text that is not empty, a number that is not 0
abbrev pub set_text : Option String → Json
set_text none = undefined
set_text (some s) = if is_blank s then undefined else text s

abbrev pub set_number : Option ℕ → Json
set_number none = undefined
set_number (some n) = if nat_eq n 0 then undefined else number n

abbrev items_of : List String → Items
items_of [] = nil
items_of (s ∷ ss) = cons (text s) (items_of ss)

abbrev pub texts : List String → Json
texts l = array (items_of l)

pub data Method : Type 0 where
  get post patch delete : Method

pub record Request : Type 0 where
  pub method : Method
  pub path : List String
  pub query : Fields
  pub headers : List (String × String)
  pub body : Option Json

-- A function of the client: its request, and what it returns of the object that comes back.
pub record Endpoint : Type 0 where
  pub request : Request
  pub read : Fields → Json

-- The error that axios throws: the object of the response, if there is one, and its own message.
pub record Failure : Type 0 where
  pub response : Option Fields
  pub message : String

-- ApiError: its code is read only where the server gave it
pub record ApiError : Type 0 where
  pub code : Option Json
  pub message : Json

unfoldable pub value : String → Fields → Json
value k end = undefined
value k (field j v fs) = let rest = value k fs in if j == k then v else rest

-- whether JavaScript takes it as true
unfoldable pub is_truthy : Json → Bool
is_truthy undefined = false
is_truthy null = false
is_truthy (text s) = not (is_blank s)
is_truthy (number n) = not (nat_eq n 0)
is_truthy (flag b) = b
is_truthy (array xs) = true
is_truthy (object fs) = true

-- `unwrapError`; `none` is the code -1
unfoldable pub unwrap_error : Failure → ApiError
unwrap_error f =
    let own : ApiError = record {
      code = none;
      message = text (if is_blank f.message then "network error" else f.message);
    } in
    elim f.response [
      | none ↦ own
      | some o ↦
          if is_truthy (value "message" o)
          then record { code = some (value "code" o); message = value "message" o }
          else own
    ]

-- What a function returns or throws.
unfoldable pub call : Endpoint → Fields ⊎ Failure → Json ⊎ ApiError
call e (inl o) = inl (e.read o)
call e (inr f) = inr (unwrap_error f)

-- `res.data`, `x ?? d`, `res.data.k ?? []` and no result; `res.data.k` is `value k`.
abbrev pub whole : Fields → Json
whole o = object o

abbrev pub or_default : Json → Json → Json
or_default d undefined = d
or_default d null = d
or_default d (text s) = text s
or_default d (number n) = number n
or_default d (flag b) = flag b
or_default d (array xs) = array xs
or_default d (object fs) = object fs

abbrev pub items : String → Fields → Json
items k o = or_default (array nil) (value k o)

abbrev pub nothing : Fields → Json
nothing o = undefined

-- A path below /api/v1, by its segments.
abbrev pub v1 : List String → List String
v1 path = "api" ∷ "v1" ∷ path

abbrev pub getting : List String → (query : List (String × Json)) (read : Fields → Json) → Endpoint
getting path query read = record {
  request = record {
    method = get;
    path = v1 path;
    query = fields query;
    headers = [];
    body = none;
  };
  read = read;
}

abbrev pub with_body : Method → List String → List (String × Json) → (Fields → Json) → Endpoint
with_body method path body read = record {
  request = record {
    method = method;
    path = v1 path;
    query = end;
    headers = [];
    body = some (object (fields body));
  };
  read = read;
}

abbrev pub bare : Method → List String → (Fields → Json) → Endpoint
bare method path read = record {
  request = record { method = method; path = v1 path; query = end; headers = []; body = none };
  read = read;
}
