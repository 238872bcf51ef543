-- ===== src/Notify/Debounce.antt =====
-- client/src/notify/notify.ts: what the debounce map does over a whole run of calls.
use mathlib.Core.Path.{subst}
use dfchat.Common.{
  ℕ, ◌+◌, ◌≤◌, String, Bool, true, false, ◌&&◌, List, [], ◌∷◌, if◌then◌else◌, ◌or_else◌, ◌==◌, ◌≡◌,
  Bool-cases, inl, inr, arith, eq_iff,
}
use dfchat.Common.Dict.{Dict, get, get-put}
use dfchat.Types.{ChatMessage}
use dfchat.Notify.{
  NotifyMeta, Surroundings, Banner, toast, nowhere, desktop, browser, maybe_notify, debounce_ms,
}

pub record Call : Type 0 where
  pub msg : ChatMessage
  pub meta : NotifyMeta
  pub env : Surroundings

abbrev pub is_toast : Banner → Bool
is_toast (toast line) = true
is_toast nowhere = false
is_toast (desktop title body conversation_id) = false
is_toast (browser title body) = false

-- The times of the toasts that a sequence of calls shows for one conversation.
unfoldable pub toast_times : String → Dict ℕ → List Call → List ℕ
toast_times conv pending [] = []
toast_times conv pending (c ∷ calls) =
    let out = maybe_notify c.msg c.meta c.env pending in
    let rest = toast_times conv out.0 calls in
    if (c.msg.conversation_id == conv) && is_toast out.1.1 then c.env.now ∷ rest else rest

-- each time is at least the debounce window after the one before, the first after `last`
abbrev pub IsSpacedFrom : ℕ → List ℕ → Type 0
IsSpacedFrom last [] = Unit
IsSpacedFrom last (t ∷ times) = (last + debounce_ms ≤ t) × IsSpacedFrom t times

-- whether the call shows a toast of the conversation
abbrev toasts : String → Dict ℕ → Call → Bool
toasts conv pending c =
    (c.msg.conversation_id == conv) && is_toast (maybe_notify c.msg c.meta c.env pending).1.1

abbrev after : Dict ℕ → Call → Dict ℕ
after pending c = (maybe_notify c.msg c.meta c.env pending).0

step-toast :
    (conv : String) (pending : Dict ℕ) (c : Call)
    → toasts conv pending c ≡ true
    → ((get conv pending or_else 0) + debounce_ms ≤ c.env.now)
      × (get conv (after pending c) or_else 0 ≡ c.env.now)
unfolding maybe_notify
step-toast conv pending c h =
    ground (
      arith,
      eq_iff c.msg.conversation_id conv,
      get-put c.msg.conversation_id conv c.env.now pending,
    )

step-quiet :
    (conv : String) (pending : Dict ℕ) (c : Call)
    → toasts conv pending c ≡ false
    → get conv (after pending c) ≡ get conv pending
unfolding maybe_notify
step-quiet conv pending c h =
    ground (
      arith,
      eq_iff c.msg.conversation_id conv,
      get-put c.msg.conversation_id conv c.env.now pending,
    )

-- Over any sequence of calls, the toasts of one conversation are at least the debounce window of 5000 ms apart, and the first of them comes at least the window after the time
-- that the debounce map has for the conversation (0 for none).
pub toast_times-IsSpacedFrom :
    (conv : String) (pending : Dict ℕ) (calls : List Call)
    → IsSpacedFrom (get conv pending or_else 0) (toast_times conv pending calls)
unfolding toast_times
toast_times-IsSpacedFrom conv pending [] = tt
toast_times-IsSpacedFrom conv pending (c ∷ calls) =
    let rest = toast_times-IsSpacedFrom conv (after pending c) calls in
    elim (Bool-cases (toasts conv pending c)) [
      | inl h ↦
          let (spaced, at) = step-toast conv pending c h in
          rw h
            (spaced, subst (λ n. IsSpacedFrom n (toast_times conv (after pending c) calls)) at rest)
      | inr h ↦ rw h (
          subst (λ o. IsSpacedFrom (o or_else 0) (toast_times conv (after pending c) calls))
            (step-quiet conv pending c h) rest)
    ]
