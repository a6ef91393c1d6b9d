-- ===== src/Rpc/Protocol/RoundTrip.antt =====
-- rpc/protocol.hpp: `deserialize` reads back what `serialize` wrote, for the messages that
-- `create_request`, `create_response` and `create_error` make.
use cpp20_coroutine_io_uring.Common.{
  ℕ, ◌+◌, ◌%◌, ◌^◌, ◌<◌, ◌≤◌, ◌≡◌, refl, ◌++◌, [], ◌∙◌, ap, append_assoc, inl, inr, ◌∷◌, Bool-cases,
  true, false, some, arith, Bytes, length, length-append, length-to_le, read_le-to_le,
  read_bytes-append,
}
use cpp20_coroutine_io_uring.Rpc.Protocol.{
  RpcMessage, ErrorCode, MessageType, init, request, response, header_bytes, meta_bytes, meta_size,
  type_code, read_request_meta, read_response_meta, read_error_message, read_meta, read_payload,
  assign_payload, is_type, sized, serialize, deserialize, read_sections, total_size, header_magic,
  create_request, create_response, create_error, blank,
}
use cpp20_coroutine_io_uring.Rpc.Protocol.Header.{
  deserialize_accepts, HeaderFits, length-header_bytes, read_header-header_bytes,
}

-- The sizes and numbers of a message fit the fields that carry them.
pub record MessageFits (m : RpcMessage) : Type 0 where
  pub meta_fits : meta_size m < 2 ^ 32
  pub payload_fits : length m.payload < 2 ^ 32
  pub id_fits : m.request_id < 2 ^ 64
  pub timestamp_fits : m.timestamp < 2 ^ 64
  pub timeout_fits : m.timeout_ms < 2 ^ 32
  pub error_fits : m.error_code < 2 ^ 32

nil_of_length : (xs : Bytes) → length xs ≡ 0 → xs ≡ []
nil_of_length [] h = refl
nil_of_length (x ∷ xs) h = absurd (omega arith)

module _ (pad : Bytes) (pad_size : 4 ≡ length pad) (m : RpcMessage) where
  pub length-meta_bytes : length (meta_bytes pad m) ≡ meta_size m
  unfolding meta_bytes meta_size
  length-meta_bytes = elim (Bool-cases (is_type request m)) [
    | inl e ↦ rw e (simp (length-append, length-to_le) (omega arith))
    | inr e ↦ rw e (simp (length-append, length-to_le) (omega arith))
  ]

  -- `serialize` writes as many bytes as the header announces.
  pub length-serialize :
      meta_size m < 2 ^ 32
      → length m.payload < 2 ^ 32
      → length (serialize pad m) ≡ total_size (sized m)
  unfolding serialize sized total_size
  length-serialize h k =
      rw
        (
          length-append (header_bytes (sized m)) (meta_bytes pad m ++ m.payload),
          length-header_bytes (sized m),
          length-append (meta_bytes pad m) m.payload,
          length-meta_bytes,
        )
        (omega arith)

  read_request_meta-meta_bytes :
      (rest : Bytes) (msg : RpcMessage)
      → MessageFits m
      → is_type request m ≡ true
      → read_request_meta (meta_bytes pad m ++ rest) msg
        ≡ some (
          record msg {
            request_id = m.request_id;
            timestamp = m.timestamp;
            timeout_ms = m.timeout_ms;
            service = m.service;
            method = m.method;
          },
          rest,
        )
  unfolding meta_bytes read_request_meta meta_size
  read_request_meta-meta_bytes rest msg f is_request =
      let bound : 32 + length m.service + length m.method < 2 ^ 32 =
        rw is_request at (f.meta_fits) in
      let small : length m.service % 2 ^ 32 ≡ length m.service = omega arith in
      let small' : length m.method % 2 ^ 32 ≡ length m.method = omega arith in
      rw is_request (
        simp append_assoc (
          rw (
            small,
            small',
            read_le-to_le 8 m.request_id _ f.id_fits,
            read_le-to_le 8 m.timestamp _ f.timestamp_fits,
            read_le-to_le 4 m.timeout_ms _ f.timeout_fits,
            read_le-to_le 4 (length m.service) _ (omega arith),
            read_le-to_le 4 (length m.method) _ (omega arith),
            read_bytes-append 4 pad _ pad_size,
            read_bytes-append (length m.service) m.service _ refl,
            read_bytes-append (length m.method) m.method _ refl,
          )))

  read_response_meta-meta_bytes :
      (rest : Bytes) (msg : RpcMessage)
      → MessageFits m
      → is_type request m ≡ false
      → msg.error_message ≡ []
      → read_response_meta (meta_bytes pad m ++ rest) msg
        ≡ some (
          record msg {
            request_id = m.request_id;
            error_code = m.error_code;
            error_message = m.error_message;
          },
          rest,
        )
  unfolding meta_bytes read_response_meta read_error_message meta_size
  read_response_meta-meta_bytes rest msg f is_other e =
      let bound : 16 + length m.error_message < 2 ^ 32 = rw is_other at (f.meta_fits) in
      let small : length m.error_message % 2 ^ 32 ≡ length m.error_message = omega arith in
      rw is_other (
        simp append_assoc (
          rw
            (
              small,
              read_le-to_le 8 m.request_id _ f.id_fits,
              read_le-to_le 4 m.error_code _ f.error_fits,
              read_le-to_le 4 (length m.error_message) _ (omega arith),
            )
            (ground (
              arith,
              e,
              nil_of_length m.error_message,
              read_bytes-append (length m.error_message) m.error_message rest refl,
            ))))

  read_payload-payload :
      (rest : Bytes) (msg : RpcMessage)
      → msg.payload ≡ []
      → msg.header.payload_len ≡ length m.payload
      → read_payload (m.payload ++ rest) msg ≡ some (true, record msg { payload = m.payload })
  unfolding read_payload assign_payload
  read_payload-payload rest msg e l =
      ground (
        arith,
        e,
        nil_of_length m.payload,
        read_bytes-append (length m.payload) m.payload rest refl,
      )

  -- The bytes pass the checks of the header, and what follows it is read into the message.
  pub deserialize-read_sections :
      (rest : Bytes) (size : ℕ) (msg : RpcMessage)
      → MessageFits m
      → HeaderFits (sized m)
      → m.header.magic ≡ header_magic
      → length (serialize pad m) ≤ size
      → deserialize (serialize pad m ++ rest) size msg
        ≡ read_sections (meta_bytes pad m ++ (m.payload ++ rest)) (record msg { header = sized m })
  unfolding serialize
  deserialize-read_sections rest size msg f hf magic fits =
      rw (append_assoc (header_bytes (sized m)) (meta_bytes pad m ++ m.payload) rest) (
        deserialize_accepts _ _ size msg (sized m)
          (read_header-header_bytes (sized m) ((meta_bytes pad m ++ m.payload) ++ rest) hf)
          (unfold sized in magic) (omega (arith, length-serialize f.meta_fits f.payload_fits))
        ∙ ap (λ xs. read_sections xs (record msg { header = sized m }))
            (append_assoc (meta_bytes pad m) m.payload rest))

  -- A request is read back: the sections give its fields.
  read_sections-request :
      (rest : Bytes) (msg : RpcMessage)
      → MessageFits m
      → is_type request m ≡ true
      → msg.header ≡ sized m
      → msg.payload ≡ []
      → read_sections (meta_bytes pad m ++ (m.payload ++ rest)) msg
        ≡ some (
          true,
          record msg {
            request_id = m.request_id;
            timestamp = m.timestamp;
            timeout_ms = m.timeout_ms;
            service = m.service;
            method = m.method;
            payload = m.payload;
          },
        )
  unfolding read_sections read_meta
  read_sections-request rest msg f r hd e =
      let same : is_type request msg ≡ true = unfold is_type sized in (rw hd r) in
      rw (same, read_request_meta-meta_bytes (m.payload ++ rest) msg f r)
        (read_payload-payload rest _ e (unfold sized in (rw hd (omega (arith, f.payload_fits)))))

  -- So is any response.
  read_sections_response :
      (rest : Bytes) (msg : RpcMessage)
      → MessageFits m
      → m.header.msg_type ≡ type_code response
      → msg.header ≡ sized m
      → msg.payload ≡ []
      → msg.error_message ≡ []
      → read_sections (meta_bytes pad m ++ (m.payload ++ rest)) msg
        ≡ some (
          true,
          record msg {
            request_id = m.request_id;
            error_code = m.error_code;
            error_message = m.error_message;
            payload = m.payload;
          },
        )
  unfolding read_sections read_meta
  read_sections_response rest msg f r hd e e' =
      let other : is_type request m ≡ false = unfold is_type in (rw r) in
      let no_request : is_type request msg ≡ false = unfold is_type sized in (rw (hd, r)) in
      let same : is_type response msg ≡ true = unfold is_type sized in (rw (hd, r)) in
      rw (no_request, same, read_response_meta-meta_bytes (m.payload ++ rest) msg f other e')
        (read_payload-payload rest _ e (unfold sized in (rw hd (omega (arith, f.payload_fits)))))

-- The header of a created message fits its fields.
pub sized-HeaderFits : (t : MessageType) (m : RpcMessage) → m.header ≡ init t → HeaderFits (sized m)
unfolding init sized
sized-HeaderFits request m e = rw e (omega arith)
sized-HeaderFits t m e = rw e (omega arith)

-- What `deserialize` makes, in a fresh message, of a serialized request that fits its size fields,
-- whatever the padding holds and whatever memory follows: it succeeds, and the message is the one
-- sent, with the section sizes in its header.
pub deserialize-serialize_request :
    (pad service method payload rest : Bytes) (request_id timeout_ms now size : ℕ)
    → 4 ≡ length pad
    → MessageFits (create_request request_id service method payload timeout_ms now)
    → length (serialize pad (create_request request_id service method payload timeout_ms now))
      ≤ size
    → deserialize
        (serialize pad (create_request request_id service method payload timeout_ms now) ++ rest)
        size
        blank
      ≡ some (
        true,
        record (create_request request_id service method payload timeout_ms now) {
          header = sized (create_request request_id service method payload timeout_ms now);
        },
      )
deserialize-serialize_request pad service method payload rest request_id timeout_ms now size p f
      fits =
    deserialize-read_sections pad p m rest size blank f
      (sized-HeaderFits request m (unfold create_request init in refl))
      (unfold create_request init in refl) fits
    ∙ read_sections-request pad p m rest _ f (unfold is_type create_request init in refl) refl refl
    ∙ unfold create_request in refl
  where
    m : RpcMessage
    m = create_request request_id service method payload timeout_ms now

-- What `deserialize` makes, in a fresh message, of a serialized response that fits its size fields:
-- it succeeds with the message that was sent, with the section sizes in its header.
pub deserialize-serialize_response :
    (pad payload rest : Bytes) (request_id size : ℕ) (code : ErrorCode)
    → 4 ≡ length pad
    → MessageFits (create_response request_id payload code)
    → length (serialize pad (create_response request_id payload code)) ≤ size
    → deserialize (serialize pad (create_response request_id payload code) ++ rest) size blank
      ≡ some (
        true,
        record (create_response request_id payload code) {
          header = sized (create_response request_id payload code);
        },
      )
deserialize-serialize_response pad payload rest request_id size code p f fits =
    deserialize-read_sections pad p m rest size blank f
      (sized-HeaderFits response m (unfold create_response init in refl))
      (unfold create_response init in refl) fits
    ∙ read_sections_response pad p m rest _ f (unfold create_response init in refl) refl refl refl
    ∙ unfold create_response in refl
  where
    m : RpcMessage
    m = create_response request_id payload code

-- What `deserialize` makes, in a fresh message, of a serialized error that fits its size fields: it
-- succeeds with the identifier, the code and the text that were sent.
pub deserialize-serialize_error :
    (pad message rest : Bytes) (request_id size : ℕ) (code : ErrorCode)
    → 4 ≡ length pad
    → MessageFits (create_error request_id code message)
    → length (serialize pad (create_error request_id code message)) ≤ size
    → deserialize (serialize pad (create_error request_id code message) ++ rest) size blank
      ≡ some (
        true,
        record (create_error request_id code message) {
          header = sized (create_error request_id code message);
        },
      )
deserialize-serialize_error pad message rest request_id size code p f fits =
    deserialize-read_sections pad p m rest size blank f
      (sized-HeaderFits response m (unfold create_error init in refl))
      (unfold create_error init in refl) fits
    ∙ read_sections_response pad p m rest _ f (unfold create_error init in refl) refl refl refl
    ∙ unfold create_error in refl
  where
    m : RpcMessage
    m = create_error request_id code message
