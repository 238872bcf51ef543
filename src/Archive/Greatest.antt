-- ===== src/Archive/Greatest.antt =====
-- `maxSeq` of client/electron/archive.ts.
use dfchat.Common.{
  ℕ, ◌≤◌, String, ◌≡◌, refl, sym, some, List, [], ◌∷◌, arith, ◌==◌, eq_iff, Bool-cases, leb, inl,
  inr, ◌⊎◌,
}
use mathlib.Core.Path.{subst}
use dfchat.Archive.{Cipher}
use dfchat.Archive.Table.{Row, select_max_seq}
use dfchat.Archive.Api.{Archive, max_seq}

-- A row of the conversation has the number.
abbrev pub InConv : {c : Cipher} → String → ℕ → List (Row c) → Type 0
InConv conv_id n [] = ⊥
InConv conv_id n (r ∷ rows) = ((r.conversation_id ≡ conv_id) × (r.seq ≡ n)) ⊎ InConv conv_id n rows

select_max_seq_above :
    {c : Cipher} (conv_id : String) (rows : List (Row c)) (n : ℕ)
    → InConv {c = c} conv_id n rows
    → n ≤ select_max_seq {c = c} conv_id rows
unfolding select_max_seq
select_max_seq_above conv_id [] n h = absurd h
select_max_seq_above {c} conv_id (r ∷ rows) n (inl (e, same)) =
    ground (arith, eq_iff r.conversation_id conv_id)
select_max_seq_above {c} conv_id (r ∷ rows) n (inr h) =
    ground (arith, select_max_seq_above {c = c} conv_id rows n h)

-- 0 or a number of the conversation
abbrev IsHeld : {c : Cipher} → String → ℕ → List (Row c) → Type 0
IsHeld {c} conv_id n rows = (n ≡ 0) ⊎ InConv {c = c} conv_id n rows

select_max_seq-IsHeld :
    {c : Cipher} (conv_id : String) (rows : List (Row c))
    → IsHeld {c = c} conv_id (select_max_seq {c = c} conv_id rows) rows
unfolding select_max_seq
select_max_seq-IsHeld conv_id [] = inl refl
select_max_seq-IsHeld {c} conv_id (r ∷ rows) =
    let rest = select_max_seq {c = c} conv_id rows in
    let later : IsHeld {c = c} conv_id rest (r ∷ rows) =
      elim (select_max_seq-IsHeld {c = c} conv_id rows) [ inl z ↦ inl z | inr h ↦ inr (inr h) ] in
    let whole = select_max_seq {c = c} conv_id (r ∷ rows) in
    let move : (n : ℕ)
        → whole ≡ n
        → IsHeld {c = c} conv_id n (r ∷ rows)
        → IsHeld {c = c} conv_id whole (r ∷ rows) =
      λ n e h. subst (λ k. IsHeld {c = c} conv_id k (r ∷ rows)) (sym e) h in
    elim (Bool-cases (r.conversation_id == conv_id)) [
      | inl hit ↦ elim (Bool-cases (leb rest r.seq)) [
        | inl under ↦
            move r.seq (ground arith) (inr (inl ((eq_iff r.conversation_id conv_id).0 hit, refl)))
        | inr over ↦ move rest (ground arith) later
      ]
      | inr miss ↦ move rest (ground arith) later
    ]

-- `maxSeq` is at least the number of every row of its conversation, and is itself the number of one,
-- or 0.
pub max_seq_greatest :
    {c : Cipher} {Blob : Type 0} (conv_id : String) (a : Archive c Blob) (n : ℕ)
    → max_seq {c = c} conv_id a ≡ some n
    → ((k : ℕ) → InConv {c = c} conv_id k a.rows → k ≤ n)
      × ((n ≡ 0) ⊎ InConv {c = c} conv_id n a.rows)
unfolding max_seq
max_seq_greatest {c} conv_id a n e =
    let same : select_max_seq {c = c} conv_id a.rows ≡ n = ground arith in
    rw (← same) (
      λ k h. select_max_seq_above {c = c} conv_id a.rows k h,
      select_max_seq-IsHeld {c = c} conv_id a.rows,
    )
