-- ===== src/Rpc/Protocol/Safety.antt =====
-- rpc/protocol.hpp: what `deserialize` does with input that is cut short, with lengths that do not
-- fit, and with the message types whose meta section it does not read.
use cpp20_coroutine_io_uring.Common.{
  ℕ, ◌+◌, ◌<◌, ◌≤◌, ◌≡◌, ◌⊎◌, inl, inr, refl, ◌++◌, [], ◌∙◌, append_assoc, true, false, none, some,
  arith, Bytes, length, length-append, Bool-cases, ltb, ltb→le, read_le_short, read_bytes_total,
}
use cpp20_coroutine_io_uring.Rpc.Protocol.{
  ProtocolHeader, RpcMessage, request, response, heartbeat, header_bytes, header_size, meta_bytes,
  type_code, read_request_meta, read_response_meta, read_meta, read_payload, assign_payload,
  is_type, sized, serialize, deserialize, read_sections, total_size, header_magic, blank,
}
use cpp20_coroutine_io_uring.Rpc.Protocol.Header.{
  HeaderFits, read_header-header_bytes, deserialize_accepts, deserialize_refuses,
}
use cpp20_coroutine_io_uring.Rpc.Protocol.RoundTrip.{
  MessageFits, length-serialize, deserialize-read_sections,
}

-- A message that fits its size fields is refused when it is cut short: `deserialize` returns false,
-- and reads nothing outside the memory, for every size below the message's own.
pub deserialize_truncated :
    (pad rest : Bytes) (m msg : RpcMessage) (size : ℕ)
    → 4 ≡ length pad
    → MessageFits m
    → HeaderFits (sized m)
    → size < length (serialize pad m)
    → (r : RpcMessage) × (deserialize (serialize pad m ++ rest) size msg ≡ some (false, r))
unfolding serialize
deserialize_truncated pad rest m msg size p f hf short = elim (Bool-cases (ltb size header_size)) [
  | inl e ↦ (msg, unfold deserialize in (rw e))
  | inr e ↦ (
    record msg { header = sized m },
    rw (append_assoc (header_bytes (sized m)) (meta_bytes pad m ++ m.payload) rest) (
        deserialize_refuses _ _ size msg (sized m)
          (read_header-header_bytes (sized m) ((meta_bytes pad m ++ m.payload) ++ rest) hf)
          (ltb→le _ _ e)
          (inr (omega (arith, length-serialize pad p m f.meta_fits f.payload_fits)))),
  )
]

-- A header whose fields fit, with the magic number, of a
-- request or a response, behind which fewer than eight bytes stand and are announced, is read past
-- the end of its memory.
pub deserialize_overread :
    (h : ProtocolHeader) (rest : Bytes) (msg : RpcMessage)
    → HeaderFits h
    → h.magic ≡ header_magic
    → (h.msg_type ≡ type_code request) ⊎ (h.msg_type ≡ type_code response)
    → h.meta_len + h.payload_len ≤ length rest
    → length rest < 8
    → deserialize (header_bytes h ++ rest) (header_size + length rest) msg ≡ none
deserialize_overread h rest msg f magic kind fits short =
    deserialize_accepts _ _ (header_size + length rest) msg h (read_header-header_bytes h rest f)
      magic (unfold total_size in (omega arith))
    ∙ sections_overread kind
  where
    sections_overread :
        (h.msg_type ≡ type_code request) ⊎ (h.msg_type ≡ type_code response)
        → read_sections rest (record msg { header = h }) ≡ none
    sections_overread (inl e) =
        unfold read_sections read_meta is_type read_request_meta in
        (rw (e, read_le_short 8 rest short))
    sections_overread (inr e) =
        unfold read_sections read_meta is_type read_response_meta in
        (rw (e, read_le_short 8 rest short))

heartbeat_sections :
    (memory : Bytes) (msg : RpcMessage)
    → msg.header.msg_type ≡ type_code heartbeat
    → msg.payload ≡ []
    → msg.header.payload_len ≤ length memory
    → (r : RpcMessage) × (back : Bytes) × (read_sections memory msg ≡ some (true, r))
      × (r.request_id ≡ msg.request_id)
      × (r.payload ++ back ≡ memory)
      × (length r.payload ≡ msg.header.payload_len)
      × (r.header ≡ msg.header)
unfolding read_sections read_meta is_type read_payload assign_payload
heartbeat_sections memory msg kind empty room = elim (Bool-cases (ltb 0 msg.header.payload_len)) [
  | inl e ↦
      let (ys, back, r, f, l) = read_bytes_total msg.header.payload_len memory room in
      (record msg { payload = ys }, back, rw (kind, e, r), refl, f, l, refl)
  | inr e ↦
      (msg, memory, rw (kind, e), refl, rw empty, rw empty (omega (arith, ltb→le _ _ e)), refl)
]

-- Of a heartbeat no meta section is read: the payload comes from the bytes of the meta section,
-- and the request id is lost, though both were serialized.
pub deserialize-serialize_heartbeat :
    (pad rest : Bytes) (m : RpcMessage) (size : ℕ)
    → 4 ≡ length pad
    → MessageFits m
    → HeaderFits (sized m)
    → m.header.magic ≡ header_magic
    → m.header.msg_type ≡ type_code heartbeat
    → length (serialize pad m) ≤ size
    → (r : RpcMessage) × (back : Bytes) × (deserialize (serialize pad m ++ rest) size blank
        ≡ some (true, r))
      × (r.request_id ≡ 0)
      × (r.payload ++ back ≡ meta_bytes pad m ++ (m.payload ++ rest))
      × (length r.payload ≡ length m.payload)
      × (r.header ≡ sized m)
deserialize-serialize_heartbeat pad rest m size p f hf magic kind fits =
    let (r, back, e, id, split, len, head) =
      heartbeat_sections (meta_bytes pad m ++ (m.payload ++ rest))
        (record blank { header = sized m }) (unfold sized in kind) refl
        (unfold sized in (omega (arith, room, f.payload_fits))) in
    (
      r,
      back,
      deserialize-read_sections pad p m rest size blank f hf magic fits ∙ e,
      id,
      split,
      unfold sized in (omega (arith, len, f.payload_fits)),
      head,
    )
  where
    room : length m.payload ≤ length (meta_bytes pad m ++ (m.payload ++ rest))
    room =
        rw (length-append (meta_bytes pad m) (m.payload ++ rest), length-append m.payload rest)
          (omega arith)
