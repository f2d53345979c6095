-- ===== src/Retry/Classify.antt =====
-- crates/aqua-matrix-agent/src/net_retry.rs: the classification of a failed connect.
use aqua_matrix_connector.Common.{
  ℕ, Option, List, Bool, true, ◌∷◌, false, [], ◌==◌, ◌||◌, ◌++◌, if◌then◌else◌, any, ◌&&◌, none,
  some,
}
use aqua_matrix_connector.Common.Text.{Text, codes, to_ascii_lowercase}

pub data ConnectErrorClass : Type 0 where
  transient fatal : ConnectErrorClass

-- `std::io::ErrorKind`, with the kinds that the code does not name as one.
pub data IoKind : Type 0 where
  connection_refused connection_reset connection_aborted not_connected timed_out broken_pipe
        unexpected_eof host_unreachable network_unreachable network_down other_kind :
      IoKind

pub record IoError : Type 0 where
  pub raw_os_error : Option ℕ
  pub kind : IoKind

-- A link of the error chain: how it is rendered, and the `io::Error` it is, if it is one.
pub record Cause : Type 0 where
  pub rendered : Text
  pub io : Option IoError

abbrev pub fatal_markers : List Text
fatal_markers =
    codes "too many open files"
    ∷ codes "os error 24"
    ∷ codes "os error 23"
    ∷ codes "no space left on device"
    ∷ codes "cannot allocate memory"
    ∷ codes "out of memory"
    ∷ codes "401 unauthorized"
    ∷ codes "403 forbidden"
    ∷ codes "m_unknown_token"
    ∷ codes "m_forbidden"
    ∷ codes "invalid_grant"
    ∷ []

abbrev pub transient_markers : List Text
transient_markers =
    codes "dns error"
    ∷ codes "failed to lookup address"
    ∷ codes "temporary failure in name resolution"
    ∷ codes "name or service not known"
    ∷ codes "no address associated with hostname"
    ∷ codes "client error (connect)"
    ∷ codes "tcp connect error"
    ∷ codes "error trying to connect"
    ∷ codes "connection refused"
    ∷ codes "connection reset"
    ∷ codes "connection aborted"
    ∷ codes "connection closed before message completed"
    ∷ codes "network is unreachable"
    ∷ codes "network is down"
    ∷ codes "no route to host"
    ∷ codes "host is unreachable"
    ∷ codes "broken pipe"
    ∷ codes "timed out"
    ∷ codes "unexpected eof"
    ∷ codes "peer misbehaved"
    ∷ codes "received fatal alert"
    ∷ codes "tls handshake"
    ∷ codes "peer closed connection"
    ∷ codes "invalid peer certificate"
    ∷ codes "502 bad gateway"
    ∷ codes "503 service unavailable"
    ∷ codes "504 gateway timeout"
    ∷ codes "429 too many requests"
    ∷ codes "m_limit_exceeded"
    ∷ []

-- `str::starts_with` and `str::contains` for a text.
unfoldable pub begins : Text → Text → Bool
begins [] s = true
begins (c ∷ m) [] = false
begins (c ∷ m) (d ∷ s) = c == d && begins m s

unfoldable pub holds_text : Text → Text → Bool
unfolding begins
holds_text m [] = begins m []
holds_text m (c ∷ s) = begins m (c ∷ s) || holds_text m s

-- `join(" | ")` over the chain.
unfoldable pub joined : List Cause → Text
joined [] = []
joined (c ∷ []) = c.rendered
joined (c ∷ d ∷ chain) = c.rendered ++ codes " | " ++ joined (d ∷ chain)

-- `EMFILE` and `ENFILE`.
unfoldable pub out_of_files : Cause → Bool
out_of_files c = elim c.io [
  | none ↦ false
  | some e ↦ elim e.raw_os_error [ none ↦ false | some n ↦ n == 23 || n == 24 ]
]

unfoldable pub is_network_kind : IoKind → Bool
is_network_kind other_kind = false
is_network_kind k = true

unfoldable pub typed_transient : Cause → Bool
unfolding is_network_kind
typed_transient c = elim c.io [ none ↦ false | some e ↦ is_network_kind e.kind ]

unfoldable pub classify_connect_error : List Cause → ConnectErrorClass
classify_connect_error chain =
    let text = to_ascii_lowercase (joined chain) in
    if any out_of_files chain
    then fatal
    else if any (λ m. holds_text m text) fatal_markers
    then fatal
    else if any typed_transient chain || any (λ m. holds_text m text) transient_markers
    then transient
    else fatal
