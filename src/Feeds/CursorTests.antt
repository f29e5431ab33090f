-- ===== src/Feeds/CursorTests.antt =====
-- A cursor at concrete data.
use microlens_recsys_mvp.Prelude.{
  ℕ, ◌<◌, String, ◌≡◌, refl, Option, some, List, [], ◌∷◌, ◌++◌, ◌==◌, str_eq, if◌then◌else◌, pos,
  arith,
}
use microlens_recsys_mvp.Durable.Domain.{aware}
use microlens_recsys_mvp.Feeds.Base64.{b64}
use microlens_recsys_mvp.Feeds.Cursor.{
  CursorState, object, CursorLibrary, JsonValue, admit, encode, decode,
}
use microlens_recsys_mvp.Feeds.CursorTrip.{CursorLaws, decode-encode, decode-signed}

abbrev state : CursorState
state = record {
  snapshot_id = 1;
  user_id = 2;
  feed_type = "popular";
  offset = 20;
  scan_offset = 40;
  expires_at = 1000;
}

abbrev uuid_text : ℕ → String
uuid_text n = if n == 1 then "a" else "b"

abbrev parse_uuid : String → Option ℕ
parse_uuid s = if str_eq s "a" then some 1 else some 2

abbrev fields : List (String × JsonValue)
fields =
    ("expires_at", JsonValue.text "z")
    ∷ ("feed_type", JsonValue.text "popular")
    ∷ ("offset", JsonValue.number (pos 20))
    ∷ ("scan_offset", JsonValue.number (pos 40))
    ∷ ("snapshot_id", JsonValue.text "a")
    ∷ ("user_id", JsonValue.text "b")
    ∷ ("v", JsonValue.number (pos 1))
    ∷ []

abbrev library : CursorLibrary
library = record {
  dumps = λ o. 123 ∷ 125 ∷ [];
  loads = λ bytes. some (object fields);
  hmac = λ key bytes. 7 ∷ bytes;
  uuid_text = uuid_text;
  parse_uuid = parse_uuid;
  date_text = λ t. "z";
  parse_date = λ s. some (aware 1000);
}

laws : CursorLaws library [] state
laws = record {
  loads-dumps = refl;
  dumps_bytes = (omega arith, (omega arith, tt));
  dumps_some = refl;
  hmac_bytes = (omega arith, (omega arith, (omega arith, tt)));
  hmac_some = refl;
  parse-snapshot_id = refl;
  parse-user_id = refl;
  snapshot_id_some = refl;
  user_id_some = refl;
  parse-expires_at = refl;
  expires_at_some = refl;
}

decode-encode_example :
    decode library [] (encode library [] state) 2 "popular" (aware 500)
    ≡ admit library state 2 "popular" 500
decode-encode_example =
    decode-encode library [] state laws refl (omega arith) (omega arith) 2 "popular" 500

decode-signed_example :
    (payload : List ℕ) × (encode library [] state
      ≡ b64 payload ++ (46 ∷ b64 (library.hmac [] payload)))
    × (state.user_id ≡ 2)
    × (state.feed_type ≡ "popular")
    × (500 < state.expires_at)
decode-signed_example =
    decode-signed library [] (encode library [] state) 2 "popular" 500 state decode-encode_example
