-- ===== src/Protocol.antt =====
-- src/networkxio/NetworkXioProtocol.h: the message that client and server exchange, and how it is
-- packed. msgpack is a parameter.
pub mod RoundTrip
use gobjfs.Base.{
  ℕ, zero, suc, ◌+◌, ◌^◌, ◌≡◌, ◌<◌, ℤ, pos, negsuc, List, [], ◌∷◌, Option, none, some, get_elem?,
}
use gobjfs.Server.{
  Opcode, noop, open_req, open_rsp, close_req, close_rsp, read_req, read_rsp, error_rsp,
  shutdown_rsp,
}

-- What a packed array holds, the types of C++ that its elements are converted from and to, and the bytes.
-- A conversion to a type that the element does not fit throws.
pub record Msgpack : Type 1 where
  pub Value : Type 0
  pub of_text : List ℕ → Value
  pub of_unsigned : ℕ → Value
  pub of_signed : ℤ → Value
  pub as_text : Value → Option (List ℕ)
  pub as_uint64 : Value → Option ℕ
  pub as_int64 : Value → Option ℤ
  pub as_int32 : Value → Option ℤ
  pub encode : List Value → List ℕ
  pub decode : List ℕ → Option (List Value)

-- The range of a signed integer of `suc w` bits.
abbrev pub InRange : ℕ → ℤ → Type 0
InRange w (pos n) = n < 2 ^ w
InRange w (negsuc n) = n < 2 ^ w

-- What was packed is unpacked, and a number is converted back to its own type.
pub record IsMsgpack (M : Msgpack) : Type 0 where
  pub decode-encode : (vs : List M.Value) → M.decode (M.encode vs) ≡ some vs
  pub text : (t : List ℕ) → M.as_text (M.of_text t) ≡ some t
  pub uint64 : (n : ℕ) → n < 2 ^ 64 → M.as_uint64 (M.of_unsigned n) ≡ some n
  pub int64 : (z : ℤ) → InRange 63 z → M.as_int64 (M.of_signed z) ≡ some z
  pub int32 : (z : ℤ) → InRange 31 z → M.as_int32 (M.of_signed z) ≡ some z

-- A NetworkXioMsg.
pub record Msg : Type 0 where
  pub opcode : Opcode
  pub filename : List ℕ
  pub size : ℕ
  pub offset : ℕ
  pub retval : ℤ
  pub errval : ℤ
  pub opaque : ℕ
  pub timeout : ℤ

-- The constructor's defaults.
unfoldable pub new_msg : Opcode → Msg
new_msg opcode = record {
  opcode = opcode;
  filename = [];
  size = 0;
  offset = 0;
  retval = pos 0;
  errval = pos 0;
  opaque = 0;
  timeout = pos 0;
}

-- The number of an opcode.
abbrev pub opcode_number : Opcode → ℕ
opcode_number noop = 0
opcode_number open_req = 1
opcode_number open_rsp = 2
opcode_number close_req = 3
opcode_number close_rsp = 4
opcode_number read_req = 5
opcode_number read_rsp = 6
opcode_number error_rsp = 7
opcode_number shutdown_rsp = 8

abbrev opcodes : List Opcode
opcodes =
    noop ∷ open_req ∷ open_rsp ∷ close_req ∷ close_rsp ∷ read_req ∷ read_rsp ∷ error_rsp
    ∷ shutdown_rsp ∷ []

-- A number that no opcode has is read as `noop`: the handlers know neither.
abbrev pub opcode_of : ℤ → Opcode
opcode_of (pos n) = elim (get_elem? opcodes n) [ none ↦ noop | some op ↦ op ]
opcode_of (negsuc n) = noop

infixl 5 ◌>>=◌
abbrev pub ◌>>=◌ : {A B : Type 0} → Option A → (A → Option B) → Option B
none >>= f = none
some a >>= f = f a

module _ (M : Msgpack) where
  -- MSGPACK_DEFINE packs the fields as an array, in this order.
  pub fields : Msg → List M.Value
  fields m =
      M.of_signed (pos (opcode_number m.opcode))
      ∷ M.of_text m.filename
      ∷ M.of_unsigned m.size
      ∷ M.of_unsigned m.offset
      ∷ M.of_signed m.retval
      ∷ M.of_signed m.errval
      ∷ M.of_unsigned m.opaque
      ∷ M.of_signed m.timeout
      ∷ []

  unfoldable pub pack_msg : Msg → List ℕ
  unfolding fields
  pack_msg m = M.encode (fields m)

  -- An element that a shorter array lacks leaves the field as it is.
  abbrev field : {A : Type 0} → (M.Value → Option A) → A → Option M.Value → Option A
  field convert old none = some old
  field convert old (some v) = convert v

  -- `obj.convert(this)`
  pub convert : List M.Value → Msg → Option Msg
  convert vs m = do
    opcode ← field (λ v. M.as_int32 v >>= λ z. some (opcode_of z)) m.opcode (get_elem? vs 0)
    filename ← field M.as_text m.filename (get_elem? vs 1)
    size ← field M.as_uint64 m.size (get_elem? vs 2)
    offset ← field M.as_uint64 m.offset (get_elem? vs 3)
    retval ← field M.as_int64 m.retval (get_elem? vs 4)
    errval ← field M.as_int32 m.errval (get_elem? vs 5)
    opaque ← field M.as_uint64 m.opaque (get_elem? vs 6)
    timeout ← field M.as_int64 m.timeout (get_elem? vs 7)
    some (record {
      opcode = opcode;
      filename = filename;
      size = size;
      offset = offset;
      retval = retval;
      errval = errval;
      opaque = opaque;
      timeout = timeout;
    })

  -- `unpack_msg` on a message; `none` where msgpack throws.
  unfoldable pub unpack_msg : List ℕ → Msg → Option Msg
  unfolding convert
  unpack_msg bytes m = M.decode bytes >>= λ vs. convert vs m
