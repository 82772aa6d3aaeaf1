-- ===== src/Store/Message.antt =====
-- The `Message` of internal/store/store.go.
use tuicord_v.Base.{ℕ, Bool, false, List, [], Option, none, String}
use tuicord_v.Store.Rich.{Attachment, Embed, Sticker, Reaction, Component, ComponentNodes, no_nodes}

pub record MessageReply : Type 0 where
  pub message_id : ℕ
  pub channel_id : ℕ
  pub author_id : ℕ
  pub author : String
  pub content : String
  pub deleted : Bool
  pub unavailable : Bool

pub record ForwardedMessage : Type 0 where
  pub content : String
  pub timestamp : ℕ
  pub attachments : List Attachment
  pub embeds : List Embed
  pub stickers : List Sticker

pub record Message : Type 0 where
  pub id : ℕ
  pub channel_id : ℕ
  pub author_id : ℕ
  pub author_avatar_url : String
  pub application_id : ℕ
  pub author : String
  pub content : String
  pub timestamp : ℕ
  pub nonce : String
  pub flags : ℕ
  pub pending : Bool
  pub failed : Bool
  pub pings_self : Bool
  pub attachments : List Attachment
  pub embeds : List Embed
  pub stickers : List Sticker
  pub reactions : List Reaction
  pub components : List Component
  pub component_tree : ComponentNodes
  pub pinned : Bool
  pub reply : Option MessageReply
  pub forwards : List ForwardedMessage
  pub rev : ℕ

-- `Message{}`.
abbrev pub zero_message : Message
zero_message = record {
  id = 0;
  channel_id = 0;
  author_id = 0;
  author_avatar_url = "";
  application_id = 0;
  author = "";
  content = "";
  timestamp = 0;
  nonce = "";
  flags = 0;
  pending = false;
  failed = false;
  pings_self = false;
  attachments = [];
  embeds = [];
  stickers = [];
  reactions = [];
  components = [];
  component_tree = no_nodes;
  pinned = false;
  reply = none;
  forwards = [];
  rev = 0;
}
