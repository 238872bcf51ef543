-- ===== src/Notify.antt =====
-- client/src/notify/notify.ts: whether and where a message is announced. Focus, the sound setting,
-- the clock and the kind of platform are arguments of each call; what the call does is its result.
pub mod Debounce
use Prim.Native.String.{◌++◌}
use Prim.Native.String
use package.text.Mathlib.Text.{starts_with}
use dfchat.Common.{
  ℕ, zero, suc, ◌+◌, String, Bool, true, false, ◌&&◌, ◌||◌, Option, none, some, List, [], ◌∷◌, ltb,
  if◌then◌else◌, ◌or_else◌, ◌==◌,
}
use dfchat.Common.Dict.{Dict, get, put}
use dfchat.Types.{Json, Fields, text, object, end, field, ChatMessage}

abbrev pub debounce_ms : ℕ
debounce_ms = 5000

pub record NotifyMeta : Type 0 where
  pub sender_name : String
  pub conversation_title : String
  pub active_conv_id : Option String
  pub is_mention : Bool

-- What the platform says at the call: whether the window is focused (or visible, in a browser),
-- whether sound is on, whether there is an Electron main process, and in a browser whether
-- notifications are granted, after the question if it was asked.
pub record Surroundings : Type 0 where
  pub focused : Bool
  pub sound_enabled : Bool
  pub electron : Bool
  pub granted : Bool
  pub now : ℕ

pub data Chime : Type 0 where
  silent notify_chime mention_chime : Chime

pub data Banner : Type 0 where
  nowhere : Banner
  toast : String → Banner
  desktop : (title body conversation_id : String) → Banner
  browser : (title body : String) → Banner

-- `s.slice(0, n)` for a text of more than n characters (`none` otherwise). Characters outside the
-- basic plane, which JavaScript counts twice, count once.
unfoldable pub cut : ℕ → String → Option String
cut n String.[] = none
cut zero (String.◌∷◌ c s) = some ""
cut (suc n) (String.◌∷◌ c s) = elim (cut n s) [ none ↦ none | some t ↦ some (String.◌∷◌ c t) ]

-- `content.text`, if it is a string
abbrev pub text_field : Fields → Option String
text_field end = none
text_field (field k (text t) rest) = if k == "text" then some t else text_field rest
text_field (field k v rest) = if k == "text" then none else text_field rest

abbrev pub text_of : Json → Option String
text_of (object fields) = text_field fields
text_of _ = none

abbrev pub shortened : String → String
shortened t = elim (cut 80 t) [ none ↦ t | some start ↦ start ++ "…" ]

unfoldable pub preview_text : ChatMessage → String
unfolding cut
preview_text msg =
    let other =
      if msg.type == "image" then "[图片]" else if msg.type == "file" then "[文件]" else "[消息]" in
    if msg.type == "text"
    then (elim (text_of msg.content) [ some t ↦ shortened t | none ↦ other ])
    else other

unfoldable pub title_of : ChatMessage → NotifyMeta → String
title_of msg meta =
    if starts_with msg.conversation_id "g_" || starts_with msg.conversation_id "c_"
    then meta.conversation_title ++ " · " ++ meta.sender_name
    else (if meta.sender_name == "" then meta.conversation_title else meta.sender_name)

abbrev pub is_focused_on_conv : Surroundings → String → Option String → Bool
is_focused_on_conv env conv_id none = false
is_focused_on_conv env conv_id (some active) = env.focused && (active == conv_id)

abbrev pub Announcement : Type 0
Announcement = Chime × Banner

-- `maybeNotify`: the debounce map afterwards, and what was announced.
unfoldable pub maybe_notify :
    ChatMessage → NotifyMeta → Surroundings → Dict ℕ → Dict ℕ × Announcement
maybe_notify msg meta env pending_at =
    let title = title_of msg meta in
    let body = preview_text msg in
    let chime =
      if env.sound_enabled
      then (if meta.is_mention then mention_chime else notify_chime)
      else silent in
    let last_at = get msg.conversation_id pending_at or_else 0 in
    let line =
      if meta.is_mention then "🔔 " ++ title ++ " 提到了你: " ++ body else title ++ ": " ++ body in
    if is_focused_on_conv env msg.conversation_id meta.active_conv_id
    then (pending_at, (silent, nowhere))
    else (if env.focused
        then (if ltb env.now (last_at + debounce_ms)
            then (pending_at, (chime, nowhere))
            else (put msg.conversation_id env.now pending_at, (chime, toast line)))
        else (if env.electron
            then (pending_at, (chime, desktop title body msg.conversation_id))
            else (if env.granted
                then (pending_at, (chime, browser title body))
                else (pending_at, (chime, nowhere)))))
