-- ===== src/Services/Failure.antt =====
-- internal/tgc/auth_recovery.go and pkg/services/file.go: the kinds of error that the handlers tell
-- apart, by the RPC error inside or by the text.
use teldrive_fork.Base.{
  ◌+◌, leb, if◌then◌else◌, List, [], ◌∷◌, Option, none, some, Bool, false, ◌||◌, ◌&&◌, Text,
  text_key,
}
use teldrive_fork.Retry.{contains, contains_any}

-- An error: its text, the type of the RPC error that tgerr.As finds in it, and whether errors.Is
-- finds ErrAuthKeyUnregistered in it.
pub record Failed : Type 0 where
  pub text : Text
  pub rpc_type : Option Text
  pub is_sentinel : Bool

abbrev pub has_type : Option Text → Text → Bool
has_type none kind = false
has_type (some t) kind = text_key.same t kind

-- "AUTH_KEY_UNREGISTERED"
abbrev pub auth_key_unregistered : Text
auth_key_unregistered =
    b'A' ∷ b'U' ∷ b'T' ∷ b'H' ∷ b'_' ∷ b'K' ∷ b'E' ∷ b'Y' ∷ b'_' ∷ b'U' ∷ b'N' ∷ b'R' ∷ b'E' ∷ b'G'
    ∷ b'I' ∷ b'S' ∷ b'T' ∷ b'E' ∷ b'R' ∷ b'E' ∷ b'D' ∷ []

-- "auth_recovery: session invalidated"
abbrev pub session_invalidated : Text
session_invalidated =
    b'a' ∷ b'u' ∷ b't' ∷ b'h' ∷ b'_' ∷ b'r' ∷ b'e' ∷ b'c' ∷ b'o' ∷ b'v' ∷ b'e' ∷ b'r' ∷ b'y' ∷ b':'
    ∷ b' ' ∷ b's' ∷ b'e' ∷ b's' ∷ b's' ∷ b'i' ∷ b'o' ∷ b'n' ∷ b' ' ∷ b'i' ∷ b'n' ∷ b'v' ∷ b'a'
    ∷ b'l' ∷ b'i' ∷ b'd' ∷ b'a' ∷ b't' ∷ b'e' ∷ b'd' ∷ []

-- "MESSAGE_IDS_EMPTY"
abbrev pub message_ids_empty : Text
message_ids_empty =
    b'M' ∷ b'E' ∷ b'S' ∷ b'S' ∷ b'A' ∷ b'G' ∷ b'E' ∷ b'_' ∷ b'I' ∷ b'D' ∷ b'S' ∷ b'_' ∷ b'E' ∷ b'M'
    ∷ b'P' ∷ b'T' ∷ b'Y' ∷ []

-- "file parts mismatch"
abbrev pub file_parts_mismatch : Text
file_parts_mismatch =
    b'f' ∷ b'i' ∷ b'l' ∷ b'e' ∷ b' ' ∷ b'p' ∷ b'a' ∷ b'r' ∷ b't' ∷ b's' ∷ b' ' ∷ b'm' ∷ b'i' ∷ b's'
    ∷ b'm' ∷ b'a' ∷ b't' ∷ b'c' ∷ b'h' ∷ []

-- `IsAuthKeyUnregistered`
unfoldable pub is_auth_key_unregistered : Option Failed → Bool
unfolding contains
is_auth_key_unregistered none = false
is_auth_key_unregistered (some e) =
    e.is_sentinel
    || (has_type e.rpc_type auth_key_unregistered
        || (contains e.text auth_key_unregistered || contains e.text session_invalidated))

-- `IsMessageIdsEmpty`
unfoldable pub is_message_ids_empty : Option Failed → Bool
unfolding contains
is_message_ids_empty none = false
is_message_ids_empty (some e) =
    has_type e.rpc_type message_ids_empty || contains e.text message_ids_empty

-- `IsFilePartsMismatch`
unfoldable pub is_file_parts_mismatch : Option Failed → Bool
unfolding contains
is_file_parts_mismatch none = false
is_file_parts_mismatch (some e) = contains e.text file_parts_mismatch

-- strings.ToLower, of ASCII text
unfoldable pub to_lower : Text → Text
to_lower [] = []
to_lower (c ∷ s) = (if leb 65 c && leb c 90 then c + 32 else c) ∷ to_lower s

abbrev pub proxy_errors : List Text
proxy_errors =
    (b'c' ∷ b'o' ∷ b'n' ∷ b'n' ∷ b'e' ∷ b'c' ∷ b't' ∷ b'i' ∷ b'o' ∷ b'n' ∷ b' ' ∷ b'r' ∷ b'e' ∷ b'f'
      ∷ b'u' ∷ b's' ∷ b'e' ∷ b'd' ∷ [])
    ∷ (b't' ∷ b'i' ∷ b'm' ∷ b'e' ∷ b'o' ∷ b'u' ∷ b't' ∷ [])
    ∷ (b'd' ∷ b'i' ∷ b'a' ∷ b'l' ∷ b' ' ∷ b't' ∷ b'c' ∷ b'p' ∷ [])
    ∷ (b'd' ∷ b'i' ∷ b'a' ∷ b'l' ∷ b' ' ∷ b's' ∷ b'o' ∷ b'c' ∷ b'k' ∷ b's' ∷ [])
    ∷ (b'p' ∷ b'r' ∷ b'o' ∷ b'x' ∷ b'y' ∷ [])
    ∷ (b's' ∷ b'o' ∷ b'c' ∷ b'k' ∷ b's' ∷ [])
    ∷ (b'i' ∷ b'/' ∷ b'o' ∷ b' ' ∷ b't' ∷ b'i' ∷ b'm' ∷ b'e' ∷ b'o' ∷ b'u' ∷ b't' ∷ [])
    ∷ (b'n' ∷ b'o' ∷ b' ' ∷ b'r' ∷ b'o' ∷ b'u' ∷ b't' ∷ b'e' ∷ b' ' ∷ b't' ∷ b'o' ∷ b' ' ∷ b'h'
        ∷ b'o' ∷ b's' ∷ b't' ∷ [])
    ∷ (b'n' ∷ b'e' ∷ b't' ∷ b'w' ∷ b'o' ∷ b'r' ∷ b'k' ∷ b' ' ∷ b'i' ∷ b's' ∷ b' ' ∷ b'u' ∷ b'n'
        ∷ b'r' ∷ b'e' ∷ b'a' ∷ b'c' ∷ b'h' ∷ b'a' ∷ b'b' ∷ b'l' ∷ b'e' ∷ [])
    ∷ []

-- `isProxyError`
unfoldable pub is_proxy_error : Option Failed → Bool
unfolding to_lower contains_any
is_proxy_error none = false
is_proxy_error (some e) = contains_any (to_lower e.text) proxy_errors
