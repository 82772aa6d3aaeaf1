-- ===== src/Store/Rich.antt =====
-- internal/store/message_types.go: attachments, embeds, stickers, reactions and components.
-- A signed field is an ℕ where Discord sends a size or a count; a time is a number of nanoseconds.
use tuicord_v.Base.{ℕ, Bool, List, String}

pub record Attachment : Type 0 where
  pub url : String
  pub proxy_url : String
  pub filename : String
  pub content_type : String
  pub w : ℕ
  pub h : ℕ
  pub size : ℕ

pub data EmbedKind : Type 0 where
  rich_embed image_embed video_embed gifv_embed link_embed : EmbedKind

pub record EmbedField : Type 0 where
  pub name : String
  pub value : String
  pub inline : Bool

pub record Embed : Type 0 where
  pub kind : EmbedKind
  pub color : ℕ
  pub author_name : String
  pub title : String
  pub url : String
  pub description : String
  pub fields : List EmbedField
  pub footer_text : String
  pub image_url : String
  pub image_w : ℕ
  pub image_h : ℕ
  pub thumb_url : String
  pub thumb_w : ℕ
  pub thumb_h : ℕ
  pub video_url : String
  pub video_w : ℕ
  pub video_h : ℕ
  pub provider : String

pub data StickerFormat : Type 0 where
  png apng gif lottie : StickerFormat

pub record Sticker : Type 0 where
  pub id : ℕ
  pub name : String
  pub format : StickerFormat

pub record Reaction : Type 0 where
  pub emoji_name : String
  pub emoji_id : ℕ
  pub animated : Bool
  pub count : ℕ
  pub me : Bool

pub data ComponentKind : Type 0 where
  button link_button select action_row container section text_display : ComponentKind
  thumbnail media_gallery file separator unknown_kind text_input label_kind : ComponentKind
  file_upload radio_group checkbox_group checkbox : ComponentKind

pub record Component : Type 0 where
  pub kind : ComponentKind
  pub label : String
  pub custom_id : String
  pub style : ℕ
  pub url : String
  pub disabled : Bool

pub data ComponentState : Type 0 where
  state_idle state_pending state_success state_error : ComponentState

pub record ComponentOption : Type 0 where
  pub label : String
  pub value : String
  pub description : String
  pub default : Bool

pub record ComponentMedia : Type 0 where
  pub url : String
  pub proxy_url : String
  pub description : String
  pub content_type : String
  pub w : ℕ
  pub h : ℕ
  pub size : ℕ
  pub spoiler : Bool
  pub name : String

-- The fields of a node that hold no other node.
pub record ComponentFields : Type 0 where
  pub kind : ComponentKind
  pub raw_type : ℕ
  pub id : ℕ
  pub custom_id : String
  pub label : String
  pub description : String
  pub content : String
  pub placeholder : String
  pub style : ℕ
  pub url : String
  pub disabled : Bool
  pub state : ComponentState
  pub input_field : Bool
  pub required : Bool
  pub value : String
  pub values : List String
  pub min_values : ℕ
  pub max_values : ℕ
  pub accent_color : ℕ
  pub spoiler : Bool
  pub divider : Bool
  pub spacing : ℕ
  pub options : List ComponentOption
  pub media : List ComponentMedia

-- A node with its `Children` and its `Accessory`, which is nil or a node.
mutual
  pub data ComponentNode : Type 0 where
    node : ComponentFields → ComponentNodes → Accessory → ComponentNode

  pub data ComponentNodes : Type 0 where
    no_nodes : ComponentNodes
    cons_node : ComponentNode → ComponentNodes → ComponentNodes

  pub data Accessory : Type 0 where
    no_accessory : Accessory
    accessory : ComponentNode → Accessory
