-- ===== src/Rpc/Protocol/Header.antt =====
-- The header of rpc/protocol.hpp: what `read_header` makes of the bytes that `serialize` writes.
use cpp20_coroutine_io_uring.Common.{
  ℕ, ◌+◌, ◌^◌, ◌<◌, ◌≤◌, ◌≡◌, ◌≢◌, ◌⊎◌, false, ◌++◌, append_assoc, some, arith, Bytes, length,
  length-append, length-to_le, read_le-to_le, read_le_total,
}
use cpp20_coroutine_io_uring.Rpc.Protocol.{
  ProtocolHeader, RpcMessage, deserialize, read_checked, read_sections, valid, total_size,
  header_magic, header_bytes, read_header, header_size,
}

-- Each field fits its type.
pub record HeaderFits (h : ProtocolHeader) : Type 0 where
  pub magic_fits : h.magic < 2 ^ 16
  pub version_fits : h.version < 2 ^ 8
  pub type_fits : h.msg_type < 2 ^ 8
  pub meta_fits : h.meta_len < 2 ^ 32
  pub payload_fits : h.payload_len < 2 ^ 32
  pub reserved_fits : h.reserved < 2 ^ 32

pub length-header_bytes : (h : ProtocolHeader) → length (header_bytes h) ≡ header_size
unfolding header_bytes
length-header_bytes h = simp (length-append, length-to_le)

pub read_header-header_bytes :
    (h : ProtocolHeader) (rest : Bytes)
    → HeaderFits h
    → read_header (header_bytes h ++ rest) ≡ some (h, rest)
unfolding header_bytes read_header
read_header-header_bytes h rest f = simp append_assoc (
    rw (
      read_le-to_le 2 h.magic _ f.magic_fits,
      read_le-to_le 1 h.version _ f.version_fits,
      read_le-to_le 1 h.msg_type _ f.type_fits,
      read_le-to_le 4 h.meta_len _ f.meta_fits,
      read_le-to_le 4 h.payload_len _ f.payload_fits,
      read_le-to_le 4 h.reserved _ f.reserved_fits,
    ))

pub read_header_total :
    (memory : Bytes)
    → header_size ≤ length memory
    → (h : ProtocolHeader) × (rest : Bytes) × (read_header memory ≡ some (h, rest))
      × (length rest + header_size ≡ length memory)
unfolding read_header
read_header_total memory l =
    let (a, m1, e1, l1) = read_le_total 2 memory (omega arith) in
    let (b, m2, e2, l2) = read_le_total 1 m1 (omega arith) in
    let (c, m3, e3, l3) = read_le_total 1 m2 (omega arith) in
    let (d, m4, e4, l4) = read_le_total 4 m3 (omega arith) in
    let (e, m5, e5, l5) = read_le_total 4 m4 (omega arith) in
    let (r, m6, e6, l6) = read_le_total 4 m5 (omega arith) in
    (
      record { magic = a; version = b; msg_type = c; meta_len = d; payload_len = e; reserved = r },
      m6,
      ground arith,
      omega arith,
    )

module _ (memory rest : Bytes) (size : ℕ) (msg : RpcMessage) (h : ProtocolHeader)
    (read : read_header memory ≡ some (h, rest)) where
  -- A header with the magic number, of no more bytes than there are, lets the sections be read.
  pub deserialize_accepts :
      h.magic ≡ header_magic
      → total_size h ≤ size
      → deserialize memory size msg ≡ read_sections rest (record msg { header = h })
  unfolding deserialize read_checked valid total_size
  deserialize_accepts magic fits = ground arith

  -- Any other is refused, and the message keeps everything but its header.
  pub deserialize_refuses :
      header_size ≤ size
      → (h.magic ≢ header_magic) ⊎ (size < total_size h)
      → deserialize memory size msg ≡ some (false, record msg { header = h })
  unfolding deserialize read_checked valid
  deserialize_refuses fits bad = ground arith
