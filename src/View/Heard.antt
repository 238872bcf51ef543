-- ===== src/View/Heard.antt =====
-- What the typing signals of client/src/components/ChatView.tsx come to over sequences of events.
use dfchat.Common.{
  ap, ℕ, ◌+◌, ◌≤◌, String, ◌≡◌, refl, ◌∙◌, ◌&&◌, Option, none, some, List, [], ◌∷◌, ltb, arith,
  if◌then◌else◌, ◌==◌, eq_iff, Bool-cases, inl, inr,
}
use dfchat.Common.Dict.{get, put, remove, get-put, get-remove}
use dfchat.View.Typing.{typing_start, typing_stop, TypingEvent, Peers, on_typing, sweep}

-- Each key stands once.
abbrev IsMap : Peers → Type 0
IsMap [] = Unit {0}
IsMap ((k, v) ∷ m) = (get k m ≡ none) × IsMap m

put-IsMap : (k : String) (v : ℕ) (m : Peers) → IsMap m → IsMap (put k v m)
unfolding put get
put-IsMap k v [] h = (refl, tt)
put-IsMap k v ((j, w) ∷ m) (new, h) = elim (Bool-cases (j == k)) [
  | inl e ↦ rw e (new, h)
  | inr e ↦ rw e (ground (arith, get-put k j v m, eq_iff k j, eq_iff j k), put-IsMap k v m h)
]

remove-IsMap : (k : String) (m : Peers) → IsMap m → IsMap (remove k m)
unfolding remove get
remove-IsMap k [] h = tt
remove-IsMap k ((j, w) ∷ m) (new, h) = elim (Bool-cases (j == k)) [
  | inl e ↦ rw e (remove-IsMap k m h)
  | inr e ↦ rw e (ground (arith, get-remove k j m), remove-IsMap k m h)
]

-- What has not run out.
abbrev pub fresh : ℕ → Option ℕ → Option ℕ
fresh now none = none
fresh now (some v) = if ltb now v then some v else none

get-sweep : (now : ℕ) (u : String) (m : Peers) → IsMap m → get u (sweep now m) ≡ fresh now (get u m)
unfolding sweep get
get-sweep now u [] h = refl
get-sweep now u ((k, v) ∷ m) (new, h) = ground (arith, get-sweep now u m h, new, eq_iff k u)

sweep-IsMap : (now : ℕ) (m : Peers) → IsMap m → IsMap (sweep now m)
unfolding sweep
sweep-IsMap now [] h = tt
sweep-IsMap now ((k, v) ∷ m) (new, h) = elim (Bool-cases (ltb now v)) [
  | inl e ↦ rw e (ground (arith, get-sweep now k m h, new), sweep-IsMap now m h)
  | inr e ↦ rw e (sweep-IsMap now m h)
]

pub data Event : Type 0 where
  heard : (now : ℕ) → TypingEvent → Event
  swept : (now : ℕ) → Event

abbrev pub time : Event → ℕ
time (heard now e) = now
time (swept now) = now

abbrev pub step : String → Event → Peers → Peers
step conv_id (heard now e) peers = on_typing conv_id now e peers
step conv_id (swept now) peers = sweep now peers

abbrev pub run : String → List Event → Peers → Peers
run conv_id [] peers = peers
run conv_id (e ∷ es) peers = run conv_id es (step conv_id e peers)

-- The times do not go back, from the first time to the second.
abbrev pub IsOrdered : ℕ → List Event → ℕ → Type 0
IsOrdered from [] to = from ≤ to
IsOrdered from (e ∷ es) to = (from ≤ time e) × IsOrdered (time e) es to

-- When what was said last of the sender in the conversation runs out, whatever was swept.
abbrev said : String → String → Event → Option ℕ → Option ℕ
said conv_id u (swept now) old = old
said conv_id u (heard now e) old =
    let new : Option ℕ = elim e.signal [ typing_stop ↦ none | typing_start ↦ some (now + 5000) ] in
    if (e.conversation_id == conv_id) && (e.sender_id == u) then new else old

abbrev pub last_said : String → String → List Event → Option ℕ → Option ℕ
last_said conv_id u [] old = old
last_said conv_id u (e ∷ es) old = last_said conv_id u es (said conv_id u e old)

step-IsMap : (conv_id : String) (e : Event) (m : Peers) → IsMap m → IsMap (step conv_id e m)
unfolding on_typing
step-IsMap conv_id (swept now) m h = sweep-IsMap now m h
step-IsMap conv_id (heard now e) m h =
    ground (arith, put-IsMap e.sender_id (now + 5000) m h, remove-IsMap e.sender_id m h)

fresh_later : (t t' : ℕ) (x y : Option ℕ) → t ≤ t' → fresh t x ≡ fresh t y → fresh t' x ≡ fresh t' y
fresh_later t t' none none le e = refl
fresh_later t t' none (some w) le e = ground arith
fresh_later t t' (some v) none le e = ground arith
fresh_later t t' (some v) (some w) le e = ground arith

fresh-fresh : (t : ℕ) (x : Option ℕ) → fresh t (fresh t x) ≡ fresh t x
fresh-fresh t none = refl
fresh-fresh t (some v) = ground arith

get-on_typing :
    (conv_id u : String) (now : ℕ) (e : TypingEvent) (m : Peers)
    → get u (on_typing conv_id now e m) ≡ said conv_id u (heard now e) (get u m)
unfolding on_typing
get-on_typing conv_id u now e m =
    ground (arith, get-put e.sender_id u (now + 5000) m, get-remove e.sender_id u m)

fresh-step :
    (conv_id u : String) (t : ℕ) (e : Event) (m : Peers) (old : Option ℕ)
    → IsMap m
    → t ≤ time e
    → fresh t (get u m) ≡ fresh t old
    → fresh (time e) (get u (step conv_id e m)) ≡ fresh (time e) (said conv_id u e old)
fresh-step conv_id u t (swept now) m old h later same =
    ap (fresh now) (get-sweep now u m h)
    ∙ fresh-fresh now (get u m)
    ∙ fresh_later t now (get u m) old later same
fresh-step conv_id u t (heard now e) m old h later same =
    let kept = fresh_later t now (get u m) old later same in
    ap (fresh now) (get-on_typing conv_id u now e m) ∙ ground (arith, kept)

run-fresh :
    (conv_id u : String) (t to : ℕ) (es : List Event) (m : Peers) (old : Option ℕ)
    → IsMap m
    → IsOrdered t es to
    → fresh t (get u m) ≡ fresh t old
    → (IsMap (run conv_id es m))
      × (fresh to (get u (run conv_id es m)) ≡ fresh to (last_said conv_id u es old))
run-fresh conv_id u t to [] m old h later same = (h, fresh_later t to (get u m) old later same)
run-fresh conv_id u t to (e ∷ es) m old h (later, ordered) same =
    run-fresh conv_id u (time e) to es (step conv_id e m) (said conv_id u e old)
      (step-IsMap conv_id e m h) ordered (fresh-step conv_id u t e m old h later same)

-- After a conversation was opened, over events and sweeps whose times do not go back, a sweep shows a
-- sender as typing exactly if the last that was heard of them in the conversation is that they type,
-- and came within the five seconds before.
pub get-sweep-run :
    (conv_id u : String) (from to : ℕ) (es : List Event)
    → IsOrdered from es to
    → get u (sweep to (run conv_id es [])) ≡ fresh to (last_said conv_id u es none)
unfolding get
get-sweep-run conv_id u from to es ordered =
    let (unique, same) = run-fresh conv_id u from to es [] none tt ordered refl in
    get-sweep to u (run conv_id es []) unique ∙ same
