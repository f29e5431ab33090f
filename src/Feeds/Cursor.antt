-- ===== src/Feeds/Cursor.antt =====
-- `CursorState` and `CursorCodec` (apps/api/app/feeds/cursor.py). A `CursorError` is a
-- `ValueError` with its message. A text of the URL is the list of its code points.
use Prim.Native.String.{count}
use microlens_recsys_mvp.Prelude.{
  ℕ, String, Bool, true, false, ◌&&◌, ◌||◌, Option, none, some, List, [], ◌∷◌, ◌++◌, ◌==◌, ltb, leb,
  str_eq, bounded_text, if◌then◌else◌, ℤ, pos, negsuc, Error, value_error, Result, ok, err, ◌>>=◌,
  ◌>>◌, guard, require,
}
use microlens_recsys_mvp.Durable.Domain.{DateTime, require_aware}
use microlens_recsys_mvp.Feeds.Base64.{b64, list_eq, unb64}

abbrev pub max_cursor_offset : ℕ
max_cursor_offset = 10000000

pub record CursorState : Type 0 where
  pub snapshot_id : ℕ
  pub user_id : ℕ
  pub feed_type : String
  pub offset : ℕ
  pub scan_offset : ℕ
  pub expires_at : ℕ

abbrev offset_range : ℤ → Result ℕ
offset_range (pos n) =
    if leb n max_cursor_offset
    then ok n
    else err (value_error "cursor offsets are outside the supported range")
offset_range (negsuc n) = err (value_error "cursor offsets are outside the supported range")

-- The constructor of `CursorState`, with the checks of `__post_init__`.
unfoldable pub cursor_state :
    (snapshot_id user_id : ℕ) (feed_type : String) (offset scan_offset : ℤ) (expires_at : DateTime)
    → Result CursorState
unfolding require_aware
cursor_state snapshot_id user_id feed_type offset scan_offset expires_at = do
  guard (bounded_text feed_type 32) (value_error "feed_type must be non-empty")
  start ← offset_range offset
  scanned ← offset_range scan_offset
  expiry ← require_aware expires_at "cursor expiry must be timezone-aware"
  ok (record {
    snapshot_id = snapshot_id;
    user_id = user_id;
    feed_type = feed_type;
    offset = start;
    scan_offset = scanned;
    expires_at = expiry;
  })

-- A JSON value, as far as the fields of a cursor tell them apart.
pub data JsonValue : Type 0 where
  number : ℤ → JsonValue
  text : String → JsonValue
  other_value : JsonValue

-- What `json.loads` returns: an object, each key once, or another value.
pub data Json : Type 0 where
  object : List (String × JsonValue) → Json
  other_json : Json

-- Python's library around the codec: JSON in bytes, the keyed hash, and the texts of uuids and
-- times (`parse_date` reads a final `Z` as `+00:00`). `none` stands for a ValueError.
pub record CursorLibrary : Type 0 where
  pub dumps : List (String × JsonValue) → List ℕ
  pub loads : List ℕ → Option Json
  pub hmac : List ℕ → List ℕ → List ℕ
  pub uuid_text : ℕ → String
  pub parse_uuid : String → Option ℕ
  pub date_text : ℕ → String
  pub parse_date : String → Option DateTime

abbrev pub malformed : Error
malformed = value_error "cursor is malformed"

abbrev pub bad_signature : Error
bad_signature = value_error "cursor signature is invalid"

abbrev pub bad_payload : Error
bad_payload = value_error "cursor payload is invalid"

-- `except (ValueError, TypeError)`
abbrev pub or_raise {ℓ} : {A : Type ℓ} → Result A → Error → Result A
or_raise (ok a) raised = ok a
or_raise (err e) raised = err raised

-- `token.split(".", 1)`
unfoldable pub split_dot : List ℕ → Option (List ℕ × List ℕ)
split_dot [] = none
split_dot (c ∷ cs) =
    let rest = split_dot cs in
    if c == 46 then some ([], cs) else elim rest [ none ↦ none | some (a, b) ↦ some (c ∷ a, b) ]

unfoldable pub field : String → List (String × JsonValue) → Option JsonValue
field name [] = none
field name ((key, value) ∷ rest) =
    let later = field name rest in if str_eq key name then some value else later

abbrev pub cursor_keys : List String
cursor_keys =
    "v" ∷ "snapshot_id" ∷ "user_id" ∷ "feed_type" ∷ "offset" ∷ "scan_offset" ∷ "expires_at" ∷ []

unfoldable pub known_key : String → List String → Bool
known_key key [] = false
known_key key (k ∷ keys) = let later = known_key key keys in str_eq key k || later

unfoldable pub known_keys : List (String × JsonValue) → Bool
unfolding known_key
known_keys [] = true
known_keys ((key, value) ∷ rest) = let later = known_keys rest in known_key key cursor_keys && later

abbrev SevenFields : Type 0
SevenFields = JsonValue × JsonValue × JsonValue × JsonValue × JsonValue × JsonValue × JsonValue

abbrev unsupported_shape : Error
unsupported_shape = value_error "unsupported cursor shape"

unfoldable pub seven_fields : List (String × JsonValue) → Result SevenFields
unfolding field
seven_fields fields = do
  e ← require (field "expires_at" fields) unsupported_shape
  f ← require (field "feed_type" fields) unsupported_shape
  o ← require (field "offset" fields) unsupported_shape
  s ← require (field "scan_offset" fields) unsupported_shape
  i ← require (field "snapshot_id" fields) unsupported_shape
  u ← require (field "user_id" fields) unsupported_shape
  v ← require (field "v" fields) unsupported_shape
  ok (e, f, o, s, i, u, v)

-- The seven fields of the object, where it has these keys and no other.
unfoldable pub cursor_fields : Json → Result SevenFields
unfolding seven_fields known_keys
cursor_fields (object fields) =
    if known_keys fields then seven_fields fields else err unsupported_shape
cursor_fields other_json = err unsupported_shape

abbrev version_1 : JsonValue → Bool
version_1 (number (pos n)) = n == 1
version_1 _ = false

abbrev json_text : JsonValue → Result String
json_text (text t) =
    if ltb 0 (count t) then ok t else err (value_error "cursor text fields are invalid")
json_text _ = err (value_error "cursor text fields are invalid")

abbrev json_integer : JsonValue → Result ℤ
json_integer (number z) = ok z
json_integer _ = err (value_error "cursor offsets must be JSON integers")

module _ (L : CursorLibrary) where
  abbrev pub cursor_object : CursorState → List (String × JsonValue)
  cursor_object s =
      ("expires_at", text (L.date_text s.expires_at))
      ∷ ("feed_type", text s.feed_type)
      ∷ ("offset", number (pos s.offset))
      ∷ ("scan_offset", number (pos s.scan_offset))
      ∷ ("snapshot_id", text (L.uuid_text s.snapshot_id))
      ∷ ("user_id", text (L.uuid_text s.user_id))
      ∷ ("v", number (pos 1))
      ∷ []

  unfoldable pub encode : (secret : List ℕ) → CursorState → List ℕ
  encode secret state =
      let payload = L.dumps (cursor_object state) in
      b64 payload ++ (46 ∷ b64 (L.hmac secret payload))

  -- The fields of the object, checked and converted.
  unfoldable pub decode_state : Option Json → Result CursorState
  unfolding cursor_fields cursor_state
  decode_state json = do
    value ← require json (value_error "payload is not JSON")
    (expiry, feed, offset, scanned, snapshot, user, version) ← cursor_fields value
    guard (version_1 version) (value_error "unsupported cursor version")
    snapshot_text ← json_text snapshot
    user_text ← json_text user
    feed_text ← json_text feed
    expiry_text ← json_text expiry
    start ← json_integer offset
    scan ← json_integer scanned
    snapshot_id ← require (L.parse_uuid snapshot_text) (value_error "badly formed uuid")
    user_id ← require (L.parse_uuid user_text) (value_error "badly formed uuid")
    expires_at ← require (L.parse_date expiry_text) (value_error "invalid isoformat string")
    cursor_state snapshot_id user_id feed_text start scan expires_at

  -- The payload of a token with a valid signature.
  unfoldable pub signed_payload : (secret token : List ℕ) → Result (List ℕ)
  unfolding unb64 list_eq split_dot
  signed_payload secret token = do
    (payload_token, signature_token) ← require (split_dot token) malformed
    payload ← or_raise (unb64 payload_token) malformed
    signature ← or_raise (unb64 signature_token) bad_signature
    guard (list_eq signature (L.hmac secret payload)) bad_signature
    ok payload

  -- The owner, the feed and the time of a cursor.
  abbrev pub admit : CursorState → (user_id : ℕ) (feed_type : String) (now : ℕ) → Result CursorState
  admit state user_id feed_type now =
      if state.user_id == user_id && str_eq state.feed_type feed_type
      then if ltb now state.expires_at then ok state else err (value_error "cursor is expired")
      else err (value_error "cursor does not belong to this user and feed")

  unfoldable pub decode :
      (secret token : List ℕ) (user_id : ℕ) (feed_type : String) (now : DateTime)
      → Result CursorState
  unfolding signed_payload decode_state require_aware
  decode secret token user_id feed_type now = do
    time ← require_aware now "cursor validation time must be timezone-aware"
    payload ← signed_payload secret token
    state ← or_raise (decode_state (L.loads payload)) bad_payload
    admit state user_id feed_type time
