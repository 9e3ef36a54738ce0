-- ===== src/Watchdog/Endpoint.antt =====
-- isAllowedPushEndpoint, safeAuthorization, sendSealedPushTicket and the batch keys of
-- apps/relay/agent-watchdog.js.
use voxhf.Protocol.Shape.Laws.{ok-injective, unless-eq-ok}
use voxhf.Protocol.Shape.{unless, ok, Result}
use voxhf.Json.{str}
use voxhf.Watchdog.{batch_key, Ticket}
use voxhf.Url.{Url}
use voxhf.Protocol.Checks.{no_line_break, repeats, is_token_like, id_char}
use voxhf.Prelude.{
  subst, none, ◌≤◌, any, ◌++◌, text_eq_iff, not, false, ◌⊎◌, ◌≢◌, ◌==◌, ◌&&◌, some, codes,
  byte_length, arith, ◌||◌, true, text_eq, length, leb, all, Option, ◌*◌, Text, List, Bool, ◌≡◌,
  refl, ◌∷◌, [], ℕ,
}

-- What the platform does: `new URL(text)`, net.isIP(host) !== 0, toLowerCase, trim, and
-- Buffer.from(text, 'base64url').
pub record Platform : Type 0 where
  pub parse_url : Text → Option Url
  pub is_ip : Text → Bool
  pub to_lower : Text → Text
  pub trim : Text → Text
  pub from_base64url : Text → List ℕ

abbrev pub max_ticket_body_bytes : ℕ
max_ticket_body_bytes = 16 * 1024

-- `s.endsWith(t)`
unfoldable pub ends_with : Text → Text → Bool
ends_with [] t = text_eq [] t
ends_with (c ∷ s) t = text_eq (c ∷ s) t || ends_with s t

unfoldable pub known_push_host : Text → Bool
known_push_host host =
    text_eq host (codes "fcm.googleapis.com")
    || text_eq host (codes "updates.push.services.mozilla.com")
    || text_eq host (codes "push.apple.com")
    || ends_with host (codes ".push.apple.com")
    || text_eq host (codes "notify.windows.com")
    || ends_with host (codes ".notify.windows.com")

abbrev pub is_empty : Text → Bool
is_empty s = length s == 0

-- safeAuthorization
unfoldable pub safe_authorization : Text → Bool
safe_authorization s = leb 16 (length s) && leb (byte_length s) 4096 && no_line_break s

pub record Request : Type 0 where
  pub endpoint : Text
  pub authorization : Text
  pub content_encoding : Text
  pub body : List ℕ

module _ (p : Platform) where
  -- The tests of isAllowedPushEndpoint on the parsed URL.
  unfoldable pub allowed_url : List Text → Url → Bool
  allowed_url extra_origins url =
      let hostname = p.to_lower url.hostname in
      let origin = p.to_lower url.origin in
      text_eq url.protocol (codes "https:")
      && is_empty url.username
      && is_empty url.password
      && (is_empty url.port || text_eq url.port (codes "443"))
      && not (is_empty hostname)
      && not (p.is_ip hostname)
      && (known_push_host hostname
          || any (λ o. text_eq (p.to_lower (p.trim o)) origin) extra_origins)

  -- A URL that does not parse is refused.
  abbrev pub parsed_allowed : List Text → Option Url → Bool
  parsed_allowed extra_origins none = false
  parsed_allowed extra_origins (some url) = allowed_url extra_origins url

  unfoldable pub is_allowed_push_endpoint : List Text → Text → Bool
  is_allowed_push_endpoint extra_origins value =
      leb (byte_length value) 4096 && parsed_allowed extra_origins (p.parse_url value)

  -- sendSealedPushTicket up to the call of fetch: the request that it makes, or what it throws. The
  -- method, the redirect mode and the other headers are the same for every request.
  unfoldable pub sealed_request : List Text → Ticket → Result Request
  sealed_request extra_origins ticket =
      let body = p.from_base64url ticket.body in
      unless (is_allowed_push_endpoint extra_origins ticket.endpoint)
        (codes "watchdog push endpoint is not allowlisted")
        (unless (safe_authorization ticket.authorization) (codes "invalid watchdog authorization") (
          unless (text_eq ticket.content_encoding (codes "aes128gcm"))
            (codes "unsupported watchdog content encoding")
            (unless (leb 1 (length body) && leb (length body) max_ticket_body_bytes)
              (codes "invalid watchdog payload size")
              (ok (record {
                endpoint = ticket.endpoint;
                authorization = ticket.authorization;
                content_encoding = ticket.content_encoding;
                body = body;
              })))))

  -- Where a request may go, said without the parser.
  pub record GoesTo (extra_origins : List Text) (r : Request) (url : Url) : Type 0 where
    pub parsed : p.parse_url r.endpoint ≡ some url
    pub https : url.protocol ≡ codes "https:"
    pub no_username : url.username ≡ []
    pub no_password : url.password ≡ []
    pub named : p.is_ip (p.to_lower url.hostname) ≡ false
    pub known :
        (known_push_host (p.to_lower url.hostname) ≡ true)
        ⊎ (any (λ o. text_eq (p.to_lower (p.trim o)) (p.to_lower url.origin)) extra_origins ≡ true)

  empty_of : (s : Text) → is_empty s ≡ true → s ≡ []
  empty_of [] h = refl
  empty_of (c ∷ s) h = absurd (ground arith)

  or_true : (a b : Bool) → (a || b) ≡ true → (a ≡ true) ⊎ (b ≡ true)
  or_true a b h = ground arith

  allowed_url-GoesTo :
      (extra_origins : List Text) (r : Request) (url : Url)
      → p.parse_url r.endpoint ≡ some url
      → allowed_url extra_origins url ≡ true
      → GoesTo extra_origins r url
  unfolding allowed_url
  allowed_url-GoesTo extra_origins r url parsed h = record {
    parsed = parsed;
    https = (text_eq_iff url.protocol (codes "https:")).0 (ground arith);
    no_username = empty_of url.username (ground arith);
    no_password = empty_of url.password (ground arith);
    named = ground arith;
    known = or_true _ _ (ground arith);
  }

  parsed_allowed-GoesTo :
      (extra_origins : List Text) (r : Request) (found : Option Url)
      → p.parse_url r.endpoint ≡ found
      → parsed_allowed extra_origins found ≡ true
      → (url : Url) × GoesTo extra_origins r url
  parsed_allowed-GoesTo extra_origins r none parsed h = absurd (ground arith)
  parsed_allowed-GoesTo extra_origins r (some url) parsed h =
      (url, allowed_url-GoesTo extra_origins r url parsed h)

  safe-no_line_break : (s : Text) → safe_authorization s ≡ true → no_line_break s ≡ true
  unfolding safe_authorization
  safe-no_line_break s h = ground arith

  allowed-parsed :
      (extra_origins : List Text) (value : Text)
      → is_allowed_push_endpoint extra_origins value ≡ true
      → parsed_allowed extra_origins (p.parse_url value) ≡ true
  unfolding is_allowed_push_endpoint
  allowed-parsed extra_origins value h = ground arith

  abbrev request_of : Ticket → Request
  request_of ticket = record {
    endpoint = ticket.endpoint;
    authorization = ticket.authorization;
    content_encoding = ticket.content_encoding;
    body = p.from_base64url ticket.body;
  }

  -- A sealed ticket leaves the relay only for an HTTPS URL without credentials, whose host is a name
  -- and is a known push service or a configured origin, with an authorization header that has no
  -- line break, and a body of 1 to 16384 bytes.
  pub sealed_request_guarded :
      (extra_origins : List Text) (ticket : Ticket) {r : Request}
      → sealed_request extra_origins ticket ≡ ok r
      → ((url : Url) × GoesTo extra_origins r url)
        × (no_line_break r.authorization ≡ true)
        × (1 ≤ length r.body)
        × (length r.body ≤ max_ticket_body_bytes)
  unfolding sealed_request
  sealed_request_guarded extra_origins ticket {r} e =
      let (allowed, h1) =
        unless-eq-ok (is_allowed_push_endpoint extra_origins ticket.endpoint) _ _ e in
      let (safe, h2) = unless-eq-ok (safe_authorization ticket.authorization) _ _ h1 in
      let (coded, h3) = unless-eq-ok (text_eq ticket.content_encoding (codes "aes128gcm")) _ _ h2 in
      let body = p.from_base64url ticket.body in
      let (sized, last) =
        unless-eq-ok (leb 1 (length body) && leb (length body) max_ticket_body_bytes) _ _ h3 in
      subst
        (λ (x : Request).
          ((url : Url) × GoesTo extra_origins x url)
          × (no_line_break x.authorization ≡ true)
          × (1 ≤ length x.body)
          × (length x.body ≤ max_ticket_body_bytes))
        (ok-injective last)
        (
          parsed_allowed-GoesTo extra_origins (request_of ticket) _ refl
              (allowed-parsed extra_origins ticket.endpoint allowed),
          safe-no_line_break ticket.authorization safe,
          ground arith,
          ground arith,
        )

-- A batch id of the protocol has no line break, so that the keys of two batches are the same only
-- for the same device and the same id.
no_break : (c : ℕ) → id_char c ≡ true → c ≢ 10
unfolding id_char
no_break c h e = absurd (ground arith)

not_split : (b d c : Text) → all id_char b ≡ true → b ≢ d ++ (10 ∷ c)
not_split [] [] c h e = cc
not_split [] (y ∷ d) c h e = cc
not_split (x ∷ b) [] c h e = ground (arith, no_break x)
not_split (x ∷ b) (y ∷ d) c h e = not_split b d c (ground arith) (ground arith)

batch_key_split :
    (d e b c : Text)
    → all id_char b ≡ true
    → all id_char c ≡ true
    → batch_key d b ≡ batch_key e c
    → (d ≡ e) × (b ≡ c)
batch_key_split [] [] b c h k q = (refl, ground arith)
batch_key_split [] (y ∷ e) b c h k q = absurd (not_split b e c h (ground arith))
batch_key_split (x ∷ d) [] b c h k q = absurd (not_split c d b k (ground arith))
batch_key_split (x ∷ d) (y ∷ e) b c h k q =
    let (same, rest) = batch_key_split d e b c h k (ground arith) in (ground arith, rest)

-- Two batches whose ids are tokens of the protocol have the same key only if the device and the id
-- are the same, even where a device key has a line break.
pub batch_key-injective :
    (d e b c : Text)
    → is_token_like (str b) ≡ true
    → is_token_like (str c) ≡ true
    → batch_key d b ≡ batch_key e c
    → (d ≡ e) × (b ≡ c)
unfolding is_token_like repeats
batch_key-injective d e b c h k q = batch_key_split d e b c (ground arith) (ground arith) q
