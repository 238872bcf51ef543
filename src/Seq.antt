-- ===== src/Seq.antt =====
-- client/src/sync/seqStore.ts: per conversation the highest received and the highest read sequence
-- number, each with the copy that localStorage holds.
pub mod Laws
use dfchat.Common.{
  ℕ, ◌-◌, String, Bool, true, false, Option, none, some, List, [], ltb, if◌then◌else◌, ◌or_else◌,
}
use dfchat.Common.Dict.{Dict, get, put}

abbrev pub SeqMap : Type 0
SeqMap = Dict ℕ

-- What localStorage holds under a key: nothing, the text of a map, or a text that is no map.
pub data Saved : Type 0 where
  absent : Saved
  malformed : Saved
  saved : SeqMap → Saved

-- `quota` says that `setItem` throws.
pub record SeqStore : Type 0 where
  pub last : SeqMap
  pub read : SeqMap
  pub stored_last : Saved
  pub stored_read : Saved
  pub quota : Bool

unfoldable pub load : Saved → SeqMap
load absent = []
load malformed = []
load (saved m) = m

unfoldable pub save : Bool → SeqMap → Saved → Saved
save quota m before = if quota then before else saved m

-- The store as a start of the program creates it.
unfoldable pub start : Bool → Saved → Saved → SeqStore
unfolding load
start quota stored_last stored_read = record {
  last = load stored_last;
  read = load stored_read;
  stored_last = stored_last;
  stored_read = stored_read;
  quota = quota;
}

unfoldable pub bump_last : String → ℕ → SeqStore → SeqStore
unfolding save
bump_last conv_id seq s =
    let current = get conv_id s.last or_else 0 in
    let next_last = put conv_id seq s.last in
    if ltb current seq
    then record s { last = next_last; stored_last = save s.quota next_last s.stored_last }
    else s

unfoldable pub mark_read : String → ℕ → SeqStore → SeqStore
unfolding save
mark_read conv_id seq s =
    let current = get conv_id s.read or_else 0 in
    let next_read = put conv_id seq s.read in
    if ltb current seq
    then record s { read = next_read; stored_read = save s.quota next_read s.stored_read }
    else s

unfoldable pub clear_all : SeqStore → SeqStore
clear_all s = record s { last = []; read = []; stored_last = absent; stored_read = absent }

unfoldable pub unread_of : String → SeqStore → ℕ
unread_of conv_id s =
    let l = get conv_id s.last or_else 0 in let r = get conv_id s.read or_else 0 in l - r
