-- ===== src/Types.antt =====
-- The shapes of client/src/types/index.ts that the stores keep. A user or message id in a list of
-- `mentions`, and the id in `replyTo`, stand in the decimal form in which every use of them reads
-- them, `String(id)`; sequence numbers and counts are natural numbers.
use dfchat.Common.{ℕ, String, Bool, Option, List}

-- A value of a parsed JSON text.
mutual
  pub data Json : Type 0 where
    null : Json
    boolean : Bool → Json
    number : ℕ → Json
    text : String → Json
    array : Items → Json
    object : Fields → Json

  pub data Items : Type 0 where
    nil : Items
    cons : Json → Items → Items

  pub data Fields : Type 0 where
    end : Fields
    field : String → Json → Fields → Fields

pub record Friend : Type 0 where
  pub id : String
  pub username : String
  pub nickname : String
  pub avatar_url : Option String
  pub remark : Option String
  pub is_online : Option Bool
  pub created_at : String

pub record ReactionCount : Type 0 where
  pub emoji : String
  pub count : ℕ
  pub user_ids : Option (List ℕ)

pub record ChatMessage : Type 0 where
  pub id : String
  pub conversation_id : String
  pub sender_id : String
  pub type : String
  pub content : Json
  pub seq : ℕ
  pub mentions : Option (List String)
  pub reply_to : Option String
  pub reactions : Option (List ReactionCount)
  pub is_recalled : Bool
  pub edited_at : Option String
  pub edit_count : Option ℕ
  pub created_at : String

pub record Pin : Type 0 where
  pub conversation_id : String
  pub message_id : String
  pub pinned_by : String
  pub pinned_at : String
  pub message : Option ChatMessage

pub record Channel : Type 0 where
  pub id : String
  pub group_id : String
  pub type : ℕ
  pub name : String
  pub topic : Option String
  pub position : ℕ
  pub created_at : String

pub record Group : Type 0 where
  pub id : String
  pub type : ℕ
  pub name : String
  pub icon_url : Option String
  pub description : Option String
  pub announcement : Option String
  pub owner_id : String
  pub member_count : ℕ
  pub max_members : ℕ
  pub is_public : Bool
  pub invite_code : String
  pub created_at : String

pub record GroupMember : Type 0 where
  pub user_id : String
  pub username : String
  pub nickname : String
  pub avatar_url : Option String
  pub role : ℕ
  pub joined_at : String
