-- ===== src/Engine/Paths.antt =====
-- crates/aqua-messenger/src/engine.rs: which paths `send_file` refuses. A canonical path is the list
-- of its components, names in UTF-8.
use aqua_matrix_connector.Common.{
  some, none, List, Option, Bool, ◌∷◌, if◌then◌else◌, true, [], false, any, length, drop, unwrap_or,
  ◌&&◌, ◌||◌, ◌++◌, ◌==◌, ◌-◌,
}
use aqua_matrix_connector.Engine.Types.{FilePath}
use aqua_matrix_connector.Common.Text.{Text, codes, text_eq, to_ascii_lowercase}
use aqua_matrix_connector.Attachments.Name.{last_dot}
use aqua_matrix_connector.Retry.Classify.{begins, holds_text}

-- `Path::starts_with`
unfoldable pub path_starts_with : FilePath → FilePath → Bool
path_starts_with p [] = true
path_starts_with [] (d ∷ ds) = false
path_starts_with (c ∷ p) (d ∷ ds) = text_eq c d && path_starts_with p ds

abbrev pub credential_places : List FilePath
credential_places =
    (codes ".ssh" ∷ [])
    ∷ (codes ".gnupg" ∷ [])
    ∷ (codes ".config" ∷ codes "gh" ∷ [])
    ∷ (codes ".aws" ∷ [])
    ∷ (codes ".docker" ∷ [])
    ∷ (codes ".claude" ∷ codes ".credentials.json" ∷ [])
    ∷ (codes ".aqua-matrix-heartbeat" ∷ [])
    ∷ (codes ".aqua-system-bridge" ∷ [])
    ∷ []

-- An unset or empty `HOME` is `none`.
unfoldable pub in_credentials : Option FilePath → FilePath → Bool
unfolding path_starts_with
in_credentials none p = false
in_credentials (some home) p = any (λ d. path_starts_with p (home ++ d)) credential_places

-- `Path::file_name`; the root has none.
unfoldable pub file_name : FilePath → Option Text
file_name [] = none
file_name (c ∷ []) = some c
file_name (c ∷ d ∷ p) = file_name (d ∷ p)

-- `Path::extension`: what follows the last dot, where something precedes it.
unfoldable pub extension_of : Text → Text
extension_of name = elim (last_dot name) [
  | none ↦ []
  | some ext ↦ if length ext == length name then [] else drop 1 ext
]

-- `str::ends_with`
abbrev pub text_ends_with : Text → Text → Bool
text_ends_with name end = text_eq (drop (length name - length end) name) end

unfoldable pub sensitive_name : Text → Option Text
unfolding extension_of
sensitive_name name =
    if begins (codes ".env.") name
      || text_ends_with name (codes ".env")
      || any (text_eq (extension_of name))
          (codes "pem" ∷ codes "key" ∷ codes "p12" ∷ codes "pfx" ∷ [])
    then some (codes "a key or env file")
    else if holds_text (codes "token") name
        || holds_text (codes "secret") name
        || text_eq name (codes "hosts.yml")
    then some (codes "a file named like a credential")
    else none

unfoldable pub sensitive_path_in : FilePath → FilePath → Option FilePath → Option Text
unfolding in_credentials sensitive_name
sensitive_path_in p state_dir home =
    if path_starts_with p state_dir
    then some (codes "the bridge's own state directory")
    else if in_credentials home p
    then some (codes "a credentials location")
    else sensitive_name (to_ascii_lowercase (unwrap_or (file_name p) []))
