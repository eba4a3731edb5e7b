-- ===== src/McpServer/OAuth/Forms.antt =====
-- The checks of internal/mcpserver/oauth.go and oauth_flow.go on what clients send.
use kg_os.Common.{
  ℕ, Bytes, codes, [], List, ◌∷◌, Bool, true, false, not, ◌||◌, ◌&&◌, Option, none, some, leb, ◌==◌,
  bytes_eq, has_prefix, cut, length, split_byte,
}
use kg_os.McpServer.OAuth.{Url, Lib, Broker}

-- `url.Values`.
abbrev pub Values : Type 0
Values = Bytes → List Bytes

unfoldable pub only_of : List Bytes → Bytes
only_of (value ∷ []) = value
only_of entries = []

-- `onlyOAuthValue`.
unfoldable pub only_oauth_value : Values → Bytes → Bytes
unfolding only_of
only_oauth_value values key = only_of (values key)

unfoldable pub has_entries : List Bytes → Bool
has_entries [] = false
has_entries (value ∷ entries) = true

-- `Values.Has`: a key that is there has a value.
unfoldable pub has_value : Values → Bytes → Bool
unfolding has_entries
has_value values key = has_entries (values key)

unfoldable pub all_of : (ℕ → Bool) → Bytes → Bool
all_of p [] = true
all_of p (b ∷ s) = p b && all_of p s

unfoldable pub is_word : ℕ → Bool
is_word b =
    (leb b'A' b && leb b b'Z')
    || (leb b'a' b && leb b b'z')
    || (leb b'0' b && leb b b'9')
    || b == b'_'
    || b == b'-'

-- `oauthSecretPattern`.
unfoldable pub is_secret : Bytes → Bool
unfolding all_of is_word
is_secret s = length s == 43 && all_of is_word s

-- `oauthVerifierPattern`.
unfoldable pub is_verifier : Bytes → Bool
unfolding all_of is_word
is_verifier s =
    leb 43 (length s) && leb (length s) 128 && all_of (λ b. is_word b || b == b'.' || b == b'~') s

-- `oauthVisiblePattern`.
unfoldable pub is_visible : Bytes → Bool
unfolding all_of
is_visible s = leb 1 (length s) && leb (length s) 512 && all_of (λ b. leb b'!' b && leb b b'~') s

unfoldable pub is_client_folder : Option (Bytes × Bytes) → Bool
is_client_folder none = false
is_client_folder (some (folder, file)) =
    leb 1 (length folder)
    && leb (length folder) 100
    && all_of is_word folder
    && bytes_eq file (codes "client.json")

-- `oauthClientPathPattern`.
unfoldable pub is_client_path : Bytes → Bool
unfolding is_client_folder all_of is_word
is_client_path path =
    has_prefix path (codes "/oauth/")
    && (bytes_eq (cut path (codes "/oauth/")) (codes "client.json")
        || is_client_folder (split_byte b'/' (cut path (codes "/oauth/"))))

abbrev pub is_chatgpt : Url → Bytes → Bool
is_chatgpt u raw =
    bytes_eq u.scheme (codes "https")
    && bytes_eq u.host (codes "chatgpt.com")
    && not u.has_user
    && bytes_eq u.opaque []
    && bytes_eq u.fragment []
    && bytes_eq u.text raw

unfoldable pub is_client_url : Option Url → Bytes → Bool
is_client_url none raw = false
is_client_url (some u) raw = is_chatgpt u raw && bytes_eq u.raw_query [] && is_client_path u.path

unfoldable pub is_redirect_url : Option Url → Bytes → Bool
is_redirect_url none raw = false
is_redirect_url (some u) raw = is_chatgpt u raw

module _ (lib : Lib) where
  unfoldable pub valid_oauth_client_id : Bytes → Bool
  unfolding is_client_url is_client_path
  valid_oauth_client_id raw = is_client_url (lib.parse_url raw) raw

  unfoldable pub valid_oauth_redirect : Bytes → Bool
  unfolding is_redirect_url
  valid_oauth_redirect raw =
      leb 1 (length raw) && leb (length raw) 2048 && is_redirect_url (lib.parse_url raw) raw

  unfoldable pub all_redirects : List Bytes → Bool
  all_redirects [] = true
  all_redirects (raw ∷ redirects) = valid_oauth_redirect raw && all_redirects redirects

  -- `validWebBearer`.
  unfoldable pub valid_web_bearer : Broker → Bytes → Bool
  valid_web_bearer o header =
      has_prefix header (codes "Bearer ")
      && leb (length header) 4103
      && not (bytes_eq (cut header (codes "Bearer ")) [])
      && bytes_eq (lib.sha256 (cut header (codes "Bearer "))) o.instance_digest
