-- ===== src/Updates.antt =====
-- The check for updates of client/electron/main.ts. A version stands as the numbers of its parts,
-- with 0 for a part that is no number; the platform's key, as in `darwin-arm64`, is an argument.
pub mod Order
use Prim.Native.Nat.{compare, Ordering}
use dfchat.Common.{
  ℕ, String, Bool, true, false, not, Option, none, some, List, [], ◌∷◌, if◌then◌else◌, ◌or_else◌,
  ◌==◌,
}
use dfchat.Common.Dict.{Dict, get}

pub record UpdateManifest : Type 0 where
  pub version : List ℕ
  pub downloads : Option (Dict String)
  pub download_url : Option String
  pub notes : Option String

-- What the check of the settings page gives.
pub record CheckResult : Type 0 where
  pub latest : Option (List ℕ)
  pub available : Bool
  pub download_url : Option String
  pub notes : Option String

-- `if (x > y) return 1; if (x < y) return -1;` and the rest of the loop
abbrev pub or_next : Ordering → Ordering → Ordering
or_next Ordering.eq o = o
or_next Ordering.lt o = Ordering.lt
or_next Ordering.gt o = Ordering.gt

-- `compareSemver`, with `gt` for 1 and `lt` for -1
unfoldable pub compare_semver : List ℕ → List ℕ → Ordering
compare_semver [] [] = Ordering.eq
compare_semver [] (y ∷ ys) = or_next (compare 0 y) (compare_semver [] ys)
compare_semver (x ∷ xs) [] = or_next (compare x 0) (compare_semver xs [])
compare_semver (x ∷ xs) (y ∷ ys) = or_next (compare x y) (compare_semver xs ys)

-- `a || b`, where the empty text counts as none
abbrev pub if_filled : Option String → String → String
if_filled none d = d
if_filled (some s) d = if s == "" then d else s

abbrev pub of_key : String → Option (Dict String) → Option String
of_key key none = none
of_key key (some m) = get key m

unfoldable pub pick_download_url : String → UpdateManifest → String
pick_download_url key m =
    if_filled (of_key key m.downloads) (if_filled m.download_url "https://dfchat.chat/#download")

abbrev pub is_newer : List ℕ → List ℕ → Bool
is_newer a b = elim (compare_semver a b) [ Ordering.gt ↦ true | _ ↦ false ]

-- 'update:checkNow', on the manifest if one came
unfoldable pub check_now : String → List ℕ → Option UpdateManifest → CheckResult
check_now key current none = record {
  latest = none;
  available = false;
  download_url = none;
  notes = none;
}
check_now key current (some m) = record {
  latest = some m.version;
  available = is_newer m.version current;
  download_url = if is_newer m.version current then some (pick_download_url key m) else none;
  notes = m.notes;
}

-- What `check` of `setupAutoUpdater` sends to the window as 'update:available': the version, where to
-- get it, and the notes.
unfoldable pub check : String → List ℕ → Option UpdateManifest → Option (List ℕ × String × String)
check key current none = none
check key current (some m) =
    if is_newer m.version current
    then some (m.version, pick_download_url key m, m.notes or_else "")
    else none
