-- ===== src/Profile/Tests.antt =====
-- Runs on given values, and the properties at them.
use aqua_matrix_connector.Common.{none, false, true, ◌≡◌, refl, ◌∷◌, ◌⊎◌, []}
use aqua_matrix_connector.Inbox.Entry.{InboxPolicy}
use aqua_matrix_connector.Profile.{
  has_tool, with_inbox, host, default_profile, without_wait_for_reply,
}
use aqua_matrix_connector.Profile.Tools.{
  t_wait_for_reply, t_send_message, t_mark_processed, t_read_inbox, t_send_file, t_list_recipients,
  t_fetch_attachment, dedup_tools,
}
use aqua_matrix_connector.Profile.Offered.{with_inbox-offers}

abbrev tracking : InboxPolicy
tracking = record {
  max_entries = 10;
  max_age = none;
  hard_cap = false;
  accept_media = true;
  track_processed = true;
}

host_tools :
    host.tools
    ≡ t_send_message ∷ t_send_file ∷ t_list_recipients ∷ t_read_inbox ∷ t_wait_for_reply
      ∷ t_fetch_attachment ∷ []
unfolding dedup_tools host
host_tools = refl

agent_waits_not : has_tool default_profile t_wait_for_reply ≡ false
unfolding has_tool default_profile
agent_waits_not = refl

opted_out : has_tool (without_wait_for_reply host) t_wait_for_reply ≡ false
unfolding dedup_tools has_tool without_wait_for_reply host
opted_out = refl

with_inbox-offers_example :
    let p' = with_inbox default_profile tracking in
    (p'.inbox ≡ tracking)
    × (has_tool p' t_mark_processed ≡ true)
    × ((t_read_inbox ≡ t_mark_processed)
        ⊎ (has_tool p' t_read_inbox ≡ has_tool default_profile t_read_inbox))
with_inbox-offers_example = with_inbox-offers default_profile tracking t_read_inbox refl
