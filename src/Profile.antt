-- ===== src/Profile.antt =====
-- crates/aqua-messenger/src/profile.rs: the identity that the tools speak for, which tools it
-- offers, and its limits.
pub mod Tools
mod Offered
mod Tests
use aqua_matrix_connector.Common.{
  ℕ, some, none, List, filter, ◌*◌, if◌then◌else◌, Option, Bool, not, true, false, ◌∷◌, ◌++◌, [],
}
use aqua_matrix_connector.Common.Text.{Text, codes, text_eq}
use aqua_matrix_connector.Profile.Tools.{
  dedup_tools, t_send_message, has_name, t_wait_for_reply, tool_names, t_send_file,
  t_mark_processed, t_list_recipients, t_read_inbox, t_fetch_attachment,
}
use aqua_matrix_connector.Inbox.Entry.{InboxPolicy, default_policy}
use aqua_matrix_connector.Attachments.{AttachmentPolicy, default_attachments}

pub record Limits : Type 0 where
  pub max_message_bytes : ℕ
  pub max_file_bytes : ℕ
  pub rate_count : ℕ
  pub rate_window_secs : ℕ
  pub max_wait_secs : ℕ

abbrev pub default_limits : Limits
default_limits = record {
  max_message_bytes = 20000;
  max_file_bytes = 10 * 1024 * 1024;
  rate_count = 20;
  rate_window_secs = 600;
  max_wait_secs = 600;
}

pub record Profile : Type 0 where
  pub label : Text
  pub server_name : Text
  pub approver : Text
  pub default_to : Option Text
  pub tag_origin : Bool
  pub inbox_note : Text
  pub tools : List Text
  pub limits : Limits
  pub attachments : AttachmentPolicy
  pub inbox : InboxPolicy

abbrev plain_tools : List Text
plain_tools =
    t_send_message ∷ t_send_file ∷ t_list_recipients ∷ t_read_inbox ∷ t_fetch_attachment ∷ []

-- The tool names in canonical order.
unfoldable pub normalize : Profile → Profile
normalize p = record p { tools = dedup_tools (filter (has_name p.tools) tool_names) }

unfoldable pub has_tool : Profile → Text → Bool
has_tool p name = has_name p.tools name

unfoldable pub with_wait_for_reply : Profile → Profile
unfolding has_tool normalize
with_wait_for_reply p = normalize (
    if has_tool p t_wait_for_reply
    then p
    else record p { tools = p.tools ++ t_wait_for_reply ∷ [] })

-- Before the names are put in order.
unfoldable pub with_policy : Profile → InboxPolicy → Profile
with_policy p policy =
    let others = filter (λ t. not (text_eq t t_mark_processed)) p.tools in
    record p {
      inbox = policy;
      tools = if policy.track_processed then others ++ t_mark_processed ∷ [] else others;
    }

unfoldable pub with_inbox : Profile → InboxPolicy → Profile
unfolding with_policy normalize
with_inbox p policy = normalize (with_policy p policy)

unfoldable pub without_wait_for_reply : Profile → Profile
without_wait_for_reply p = record p {
  tools = filter (λ t. not (text_eq t t_wait_for_reply)) p.tools;
}

unfoldable pub host : Profile
unfolding with_wait_for_reply
host = with_wait_for_reply (record {
  label = codes "Aqua System";
  server_name = codes "aqua-system-bridge-mcp";
  approver = codes "Tim";
  default_to = none;
  tag_origin = true;
  inbox_note = codes "The inbox is shared by all sessions on this host.";
  tools = plain_tools;
  limits = default_limits;
  attachments = default_attachments;
  inbox = default_policy;
})

unfoldable pub embedded_agent : Text → Text → Profile
embedded_agent label owner_name = record {
  label = label;
  server_name = codes "aqua-messenger-mcp";
  approver = codes "your owner";
  default_to = some owner_name;
  tag_origin = false;
  inbox_note = codes "The inbox holds messages to this agent from allow-listed people and rooms.";
  tools = plain_tools;
  limits = default_limits;
  attachments = default_attachments;
  inbox = default_policy;
}

unfoldable pub default_profile : Profile
unfolding embedded_agent
default_profile = embedded_agent (codes "this agent") (codes "owner")
