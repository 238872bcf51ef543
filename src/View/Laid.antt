-- ===== src/View/Laid.antt =====
-- What `buildRenderList` of client/src/components/ChatView.tsx lays out, without its own tests.
use dfchat.Common.{
  ◌==◌, ◌||◌, ℕ, ◌+◌, ◌<◌, String, ◌≡◌, Bool, false, not, Option, none, some, List, [], ◌∷◌, ◌⊎◌,
}
use dfchat.Types.{ChatMessage}
use dfchat.View.Render.{Calendar, RenderItem, date, group, last}
use dfchat.View.Layout.{Opens}

-- No reply: no id, or one that counts as false.
abbrev pub NoReply : Option String → Type 0
NoReply none = Unit {0}
NoReply (some id) = (id ≡ "") ⊎ (id ≡ "0")

abbrev refers : Option String → Bool
refers o = elim o [ none ↦ false | some id ↦ not (id == "" || id == "0") ]

-- Both times are known, and the later is less than five minutes after the other.
abbrev pub AreClose : Option ℕ → Option ℕ → Type 0
AreClose (some t) (some u) = u < t + 300000
AreClose _ _ = ⊥

-- Both days are known and are one.
abbrev pub AreSameDay : Option ℕ → Option ℕ → Type 0
AreSameDay (some a) (some b) = a ≡ b
AreSameDay _ _ = ⊥

module _ (calendar : Calendar) where
  -- The message is no reply, and the same user sent it less than five minutes after the other.
  abbrev pub IsFollowUp : ChatMessage → ChatMessage → Type 0
  IsFollowUp before m =
      (before.sender_id ≡ m.sender_id)
      × NoReply m.reply_to
      × AreClose (calendar.time before.created_at) (calendar.time m.created_at)

  -- The group before ends with a message that the message follows up.
  abbrev pub FollowsLast : Option ChatMessage → ChatMessage → Type 0
  FollowsLast none m = ⊥
  FollowsLast (some before) m = IsFollowUp before m

  -- The last date is of the day.
  abbrev pub IsToday : Option String → String → Type 0
  IsToday none d = ⊥
  IsToday (some today) d = AreSameDay (calendar.day today) (calendar.day d)

  -- The message set the last date or is of its day.
  abbrev pub IsDated : Option String → ChatMessage → Type 0
  IsDated none m = ⊥
  IsDated (some today) m = (today ≡ m.created_at) ⊎ IsToday (some today) m.created_at

  abbrev pub AreDated : Option String → List ChatMessage → Type 0
  AreDated day [] = Unit {0}
  AreDated day (m ∷ ms) = IsDated day m × AreDated day ms

  abbrev pub AreFollowUps : List ChatMessage → Type 0
  AreFollowUps [] = Unit {0}
  AreFollowUps (m ∷ []) = Unit {0}
  AreFollowUps (m ∷ n ∷ ms) = IsFollowUp m n × AreFollowUps (n ∷ ms)

  -- From a key, the last date, and the last message since that date: a date is of another day than the
  -- last one and stands before the group of the message that it is the date of; the groups are
  -- numbered, none is empty, each holds messages of the last date, each but the first a follow-up of
  -- the one before it, and its first is no follow-up of the last message since that date.
  abbrev pub IsLaidOut : ℕ → Option String → Option ChatMessage → List RenderItem → Type 0
  IsLaidOut k day prev [] = Unit {0}
  IsLaidOut k day prev (date d ∷ items) =
      ¬ (IsToday day d) × Opens calendar d items × IsLaidOut k (some d) none items
  IsLaidOut k day prev (group j [] ∷ items) = ⊥
  IsLaidOut k day prev (group j (m ∷ ms) ∷ items) =
      (j ≡ k)
      × ¬ (FollowsLast prev m)
      × AreDated day (m ∷ ms)
      × AreFollowUps (m ∷ ms)
      × IsLaidOut (k + 1) day (last (m ∷ ms)) items
