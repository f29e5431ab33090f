-- ===== src/Feeds/CursorTrip.antt =====
-- What `CursorCodec.decode` accepts, and the round trip with `encode`
-- (apps/api/app/feeds/cursor.py).
use Prim.Native.String.{count}
use microlens_recsys_mvp.Prelude.{
  ℕ, ◌≤◌, ◌<◌, String, Bool, true, false, ◌&&◌, ◌≡◌, refl, sym, ap, subst, ◌∙◌, inl, inr, Option,
  none, some, List, [], ◌∷◌, ◌++◌, ◌==◌, ==→eq, ltb, leb, str_eq, eq_iff, bounded_text, All,
  if◌then◌else◌, Bool-cases, Option-cases, Error, value_error, Result, ok, err, guard, require,
  >>=-eq-ok, arith,
}
use microlens_recsys_mvp.Durable.Domain.{aware, require_aware}
use microlens_recsys_mvp.Feeds.Base64.{b64, list_eq, is_empty, unb64}
use microlens_recsys_mvp.Feeds.Bytes.{
  IsByte, NoDot, b64-NoDot, list_eq_refl, list_eq→eq, unb64-b64, b64-unb64,
}
use microlens_recsys_mvp.Feeds.Cursor.{
  CursorState, cursor_state, max_cursor_offset, object, CursorLibrary, malformed, bad_signature,
  bad_payload, or_raise, split_dot, field, known_key, known_keys, seven_fields, cursor_fields,
  cursor_object, encode, decode_state, signed_payload, admit, decode,
}

-- What the codec relies on in Python's library, for one state.
pub record CursorLaws (L : CursorLibrary) (secret : List ℕ) (s : CursorState) : Type 0 where
  pub loads-dumps : L.loads (L.dumps (cursor_object L s)) ≡ some (object (cursor_object L s))
  pub dumps_bytes : All IsByte (L.dumps (cursor_object L s))
  pub dumps_some : is_empty (L.dumps (cursor_object L s)) ≡ false
  pub hmac_bytes : All IsByte (L.hmac secret (L.dumps (cursor_object L s)))
  pub hmac_some : is_empty (L.hmac secret (L.dumps (cursor_object L s))) ≡ false
  pub parse-snapshot_id : L.parse_uuid (L.uuid_text s.snapshot_id) ≡ some s.snapshot_id
  pub parse-user_id : L.parse_uuid (L.uuid_text s.user_id) ≡ some s.user_id
  pub snapshot_id_some : ltb 0 (count (L.uuid_text s.snapshot_id)) ≡ true
  pub user_id_some : ltb 0 (count (L.uuid_text s.user_id)) ≡ true
  pub parse-expires_at : L.parse_date (L.date_text s.expires_at) ≡ some (aware s.expires_at)
  pub expires_at_some : ltb 0 (count (L.date_text s.expires_at)) ≡ true

split_dot-append : (a b : List ℕ) → NoDot a → split_dot (a ++ (46 ∷ b)) ≡ some (a, b)
unfolding split_dot
split_dot-append [] b h = refl
split_dot-append (c ∷ a) b h =
    let other : (c == 46) ≡ false = ground (arith, h.0) in rw (other, split_dot-append a b h.1) refl

split_dot-join : (t a b : List ℕ) → split_dot t ≡ some (a, b) → t ≡ a ++ (46 ∷ b)
unfolding split_dot
split_dot-join [] a b h = absurd (cc)
split_dot-join (c ∷ t) a b h = elim (Bool-cases (c == 46)) [
  | inl dot ↦
      let at : c ≡ 46 = ==→eq c 46 dot in
      let h1 : ◌≡◌ {A = Option (List ℕ × List ℕ)} (some ([], t)) (some (a, b)) = rw dot at h in
      let front : [] ≡ a = cc in let back : t ≡ b = cc in rw (at, ← front, back) refl
  | inr other ↦ elim (Option-cases (split_dot t)) [
    | inl absent ↦ absurd (ground arith)
    | inr ((p, q), e) ↦
        let h1 : ◌≡◌ {A = Option (List ℕ × List ℕ)} (some (c ∷ p, q)) (some (a, b)) =
          rw (other, e) at h in
        let front : c ∷ p ≡ a = cc in
        let back : q ≡ b = cc in
        ap (λ l. c ∷ l) (split_dot-join t p q e)
        ∙ ap (λ l. l ++ (46 ∷ q)) front
        ∙ ap (λ l. a ++ (46 ∷ l)) back
  ]
]

or_raise-ok {ℓ} : {A : Type ℓ} (m : Result A) (e : Error) {a : A} → or_raise m e ≡ ok a → m ≡ ok a
or_raise-ok (ok b) e h = cc
or_raise-ok (err b) e h = cc

admit_unfolded :
    (mine live : Bool) (read state : CursorState)
    → (if mine
        then if live then ok read else err (value_error "cursor is expired")
        else err (value_error "cursor does not belong to this user and feed"))
      ≡ ok state
    → (mine ≡ true) × (live ≡ true) × (read ≡ state)
admit_unfolded true true read state h = (refl, refl, cc)
admit_unfolded true false read state h = absurd (cc)
admit_unfolded false live read state h = absurd (cc)

pub admit-ok :
    (L : CursorLibrary) (read state : CursorState) (user_id : ℕ) (feed_type : String) (now : ℕ)
    → admit L read user_id feed_type now ≡ ok state
    → (read ≡ state)
      × (state.user_id ≡ user_id)
      × (state.feed_type ≡ feed_type)
      × (now < state.expires_at)
admit-ok L read state user_id feed_type now h =
    let (mine, live, same) =
      admit_unfolded (read.user_id == user_id && str_eq read.feed_type feed_type)
        (ltb now read.expires_at) read state h in
    (
      same,
      ap (λ (r : CursorState). r.user_id) (sym same) ∙ ground arith,
      ap (λ (r : CursorState). r.feed_type) (sym same)
          ∙ ground (arith, eq_iff read.feed_type feed_type),
      subst (λ (r : CursorState). now < r.expires_at) same (ground arith),
    )

module _ (L : CursorLibrary) (secret : List ℕ) where
  module _ (s : CursorState) (laws : CursorLaws L secret s) where
    signed_payload-encode :
        signed_payload L secret (encode L secret s) ≡ ok (L.dumps (cursor_object L s))
    unfolding signed_payload encode
    signed_payload-encode =
        let payload : List ℕ = L.dumps (cursor_object L s) in
        let bytes : All IsByte payload = laws.dumps_bytes in
        rw
          (
            split_dot-append (b64 payload) (b64 (L.hmac secret payload)) (b64-NoDot payload bytes),
            unb64-b64 payload bytes (laws.dumps_some),
            unb64-b64 (L.hmac secret payload) laws.hmac_bytes laws.hmac_some,
            list_eq_refl (L.hmac secret payload),
          )
          refl

    decode_state-object :
        bounded_text s.feed_type 32 ≡ true
        → s.offset ≤ max_cursor_offset
        → s.scan_offset ≤ max_cursor_offset
        → decode_state L (some (object (cursor_object L s))) ≡ ok s
    unfolding decode_state cursor_fields seven_fields field known_keys known_key cursor_state
        require_aware
    decode_state-object feed offset scanned =
        let start : leb s.offset max_cursor_offset ≡ true = ground arith in
        let scan : leb s.scan_offset max_cursor_offset ≡ true = ground arith in
        let some_feed : ltb 0 (count s.feed_type) ≡ true = ground arith in
        let short_feed : leb (count s.feed_type) 32 ≡ true = ground arith in
        rw
          (
            laws.snapshot_id_some, laws.user_id_some, some_feed, laws.expires_at_some,
            laws.parse-snapshot_id, laws.parse-user_id, laws.parse-expires_at, some_feed,
            short_feed, start, scan,
          )
          refl

    -- Decoding the token that was encoded from a state in range, with the same secret, gives back
    -- that state where the user and the feed are those of the state and the time is before its
    -- expiry; otherwise it is rejected as foreign, or else as expired. What is relied on is that
    -- JSON, the keyed hash, uuids and times of this state are read back as they were written, as
    -- bytes and not empty.
    pub decode-encode :
        bounded_text s.feed_type 32 ≡ true
        → s.offset ≤ max_cursor_offset
        → s.scan_offset ≤ max_cursor_offset
        → (user_id : ℕ) (feed_type : String) (now : ℕ)
        → decode L secret (encode L secret s) user_id feed_type (aware now)
          ≡ admit L s user_id feed_type now
    unfolding decode require_aware
    decode-encode feed offset scanned user_id feed_type now =
        rw (signed_payload-encode, laws.loads-dumps, decode_state-object feed offset scanned) refl

  -- A token that is accepted at an aware time is, character by character, the encoding of a payload
  -- followed by that of the keyed hash of that payload; the state that it gives is the user's and
  -- the feed's, and has not expired.
  pub decode-signed :
      (token : List ℕ) (user_id : ℕ) (feed_type : String) (now : ℕ) (state : CursorState)
      → decode L secret token user_id feed_type (aware now) ≡ ok state
      → (payload : List ℕ) × (token ≡ b64 payload ++ (46 ∷ b64 (L.hmac secret payload)))
        × (state.user_id ≡ user_id)
        × (state.feed_type ≡ feed_type)
        × (now < state.expires_at)
  unfolding decode require_aware signed_payload
  decode-signed token user_id feed_type now state h =
      let (payload, e1, h1) = >>=-eq-ok (signed_payload L secret token) _ h in
      let (read, e2, h2) =
        >>=-eq-ok (or_raise (decode_state L (L.loads payload)) bad_payload) _ h1 in
      let (same, mine, feed, live) = admit-ok L read state user_id feed_type now h2 in
      (payload, signed payload e1, mine, feed, live)
    where
      signed :
          (payload : List ℕ)
          → signed_payload L secret token ≡ ok payload
          → token ≡ b64 payload ++ (46 ∷ b64 (L.hmac secret payload))
      signed payload e =
          let ((first, second), e1, h1) = >>=-eq-ok (require (split_dot token) malformed) _ e in
          let (bytes, e2, h2) = >>=-eq-ok (or_raise (unb64 first) malformed) _ h1 in
          let (signature, e3, h3) = >>=-eq-ok (or_raise (unb64 second) bad_signature) _ h2 in
          let (u, e4, h4) =
            >>=-eq-ok (guard (list_eq signature (L.hmac secret bytes)) bad_signature) _ h3 in
          let last : bytes ≡ payload = ground arith in
          let mac : signature ≡ L.hmac secret bytes =
            list_eq→eq signature (L.hmac secret bytes) (ground arith) in
          let front : b64 bytes ≡ first =
            b64-unb64 first bytes (or_raise-ok (unb64 first) malformed e2) in
          let back : b64 signature ≡ second =
            b64-unb64 second signature (or_raise-ok (unb64 second) bad_signature e3) in
          split_dot-join token first second (found (split_dot token) e1)
          ∙ ap (λ l. l ++ (46 ∷ second)) (sym front)
          ∙ ap (λ l. b64 bytes ++ (46 ∷ l)) (sym back)
          ∙ ap (λ l. b64 bytes ++ (46 ∷ b64 l)) mac
          ∙ ap (λ l. b64 l ++ (46 ∷ b64 (L.hmac secret l))) last
        where
          found :
              (o : Option (List ℕ × List ℕ)) {p : List ℕ × List ℕ}
              → require o malformed ≡ ok p
              → o ≡ some p
          found none e = cc
          found (some q) e = cc
