-- ===== src/Profile/Tools.antt =====
-- crates/aqua-messenger/src/jsonrpc.rs: the tools' names. profile.rs: `contains` and `dedup` on them.
use aqua_matrix_connector.Common.{List, Bool, ◌∷◌, [], any, if◌then◌else◌}
use aqua_matrix_connector.Common.Text.{Text, codes, text_eq}

abbrev pub t_send_message : Text
t_send_message = codes "send_message"

abbrev pub t_send_file : Text
t_send_file = codes "send_file"

abbrev pub t_list_recipients : Text
t_list_recipients = codes "list_recipients"

abbrev pub t_read_inbox : Text
t_read_inbox = codes "read_inbox"

abbrev pub t_wait_for_reply : Text
t_wait_for_reply = codes "wait_for_reply"

abbrev pub t_fetch_attachment : Text
t_fetch_attachment = codes "fetch_attachment"

abbrev pub t_mark_processed : Text
t_mark_processed = codes "mark_processed"

abbrev pub tool_names : List Text
tool_names =
    t_send_message ∷ t_send_file ∷ t_list_recipients ∷ t_read_inbox ∷ t_wait_for_reply
    ∷ t_fetch_attachment ∷ t_mark_processed ∷ []

abbrev pub has_name : List Text → Text → Bool
has_name tools name = any (λ t. text_eq t name) tools

unfoldable pub skip_same : Text → List Text → List Text
skip_same t [] = t ∷ []
skip_same t (u ∷ us) = if text_eq t u then u ∷ us else t ∷ u ∷ us

-- `Vec::dedup`
unfoldable pub dedup_tools : List Text → List Text
unfolding skip_same
dedup_tools [] = []
dedup_tools (t ∷ ts) = skip_same t (dedup_tools ts)
