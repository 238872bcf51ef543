-- ===== src/Call.antt =====
-- client/src/call/store.ts: the state of a call, its peer connection and the media streams, as one
-- record. A handler runs whole: what its awaits give is an argument, with `false` or `none` for one
-- that throws. Devices are seen through the tracks that getUserMedia and getDisplayMedia have given
-- out and those that have been stopped.
pub mod Media
pub mod Handlers
pub mod Callbacks
pub mod Events
pub mod Devices
pub mod Release
pub mod Awaits
pub mod Uncut
use dfchat.Common.{ℕ, String, Bool, Option, List}

pub data CallKind : Type 0 where
  audio video : CallKind

pub record Track : Type 0 where
  pub id : ℕ
  pub is_video : Bool

pub record MediaStream : Type 0 where
  pub audio_tracks : List Track
  pub video_tracks : List Track

pub record Conversation : Type 0 where
  pub peer_id : String
  pub peer_name : String
  pub kind : CallKind
  pub muted : Bool
  pub camera_off : Bool
  pub screen_sharing : Bool
  pub local_stream : Option MediaStream
  pub remote_stream : Option (List Track)
  pub started_at : ℕ

pub data CallState : Type 0 where
  idle : CallState
  inviting incoming : (peer_id peer_name : String) → CallKind → CallState
  connected : Conversation → CallState
  ended : String → CallState

-- A peer connection: the servers it was made with, the tracks of its senders, whether it has a remote
-- description, and the candidates that it was given.
pub record Peer : Type 0 where
  pub ice_servers : List String
  pub senders : List Track
  pub remote_description : Bool
  pub candidates : List String

-- The store's state and the module's variables. `captured` and `stopped` are the ids of the tracks
-- that the devices gave and of those that were stopped, `disabled` of those whose `enabled` is false;
-- `sent` are the types and addressees of what went to the WebSocket client, the latest first.
pub record CallStore : Type 0 where
  pub state : CallState
  pub pc : Option Peer
  pub local_stream : Option MediaStream
  pub remote_stream : Option (List Track)
  pub camera_video_track : Option Track
  pub screen_stream : Option MediaStream
  pub pending_candidates : List String
  pub captured : List ℕ
  pub stopped : List ℕ
  pub disabled : List ℕ
  pub sent : List (String × String)
