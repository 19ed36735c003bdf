-- ===== src/Tests/Exchanges.antt =====
-- A packer of arrays, and a read over a connection.
use gobjfs.Base.{
  ℕ, ◌≡◌, refl, ◌∙◌, ℤ, pos, negsuc, neg, true, List, [], ◌∷◌, ◌++◌, Option, none, some, ◌==◌,
  if◌then◌else◌, arith, Returns, append-nil, append_assoc,
}
use gobjfs.Server.{Net, read_req}
use gobjfs.Client.Credits.{Link, remove}
use gobjfs.Protocol.{Msgpack, IsMsgpack, Msg, pack_msg, unpack_msg, new_msg}
use gobjfs.Protocol.RoundTrip.{IsWord, unpack_msg-pack_msg}
use gobjfs.Util.Align.{is_direct_io_aligned}
use gobjfs.Exchange.Answers.{read_outcome}
use gobjfs.Base.{done}
use gobjfs.Exchange.{read_message, xio_msg_prepare, answer, on_reply}
use gobjfs.Exchange.Reads.{Completes, on_reply-answer}

data Value : Type 0 where
  text : List ℕ → Value
  unsigned : ℕ → Value
  signed : ℤ → Value

-- Each character and each number is a kind and a value.
chars : List ℕ → List ℕ → List ℕ
chars [] rest = 1 ∷ 0 ∷ rest
chars (c ∷ cs) rest = 0 ∷ c ∷ chars cs rest

encode : List Value → List ℕ
encode [] = []
encode (text t ∷ vs) = chars t (encode vs)
encode (unsigned n ∷ vs) = 2 ∷ n ∷ encode vs
encode (signed (pos n) ∷ vs) = 3 ∷ n ∷ encode vs
encode (signed (negsuc n) ∷ vs) = 4 ∷ n ∷ encode vs

abbrev with_value : Value → Option (List Value) → Option (List Value)
with_value v none = none
with_value v (some vs) = some (v ∷ vs)

-- `acc` is the part of a text that was read.
decode_from : List ℕ → List ℕ → Option (List Value)
decode_from acc [] = some []
decode_from acc (k ∷ []) = none
decode_from acc (k ∷ n ∷ rest) =
    let longer = decode_from (acc ++ n ∷ []) rest in
    let other = decode_from [] rest in
    if k == 0
    then longer
    else (if k == 1
        then with_value (text acc) other
        else (if k == 2
            then with_value (unsigned n) other
            else (if k == 3
                then with_value (signed (pos n)) other
                else with_value (signed (negsuc n)) other)))

decode_from-chars :
    (acc t rest : List ℕ)
    → decode_from acc (chars t rest) ≡ with_value (text (acc ++ t)) (decode_from [] rest)
unfolding decode_from chars
decode_from-chars acc [] rest = rw append-nil
decode_from-chars acc (c ∷ cs) rest = decode_from-chars (acc ++ c ∷ []) cs rest ∙ rw append_assoc

decode_from-encode : (vs : List Value) → decode_from [] (encode vs) ≡ some vs
unfolding decode_from encode
decode_from-encode [] = refl
decode_from-encode (text t ∷ vs) = decode_from-chars [] t (encode vs) ∙ rw (decode_from-encode vs)
decode_from-encode (unsigned n ∷ vs) = rw (decode_from-encode vs)
decode_from-encode (signed (pos n) ∷ vs) = rw (decode_from-encode vs)
decode_from-encode (signed (negsuc n) ∷ vs) = rw (decode_from-encode vs)

abbrev text_of : Value → Option (List ℕ)
text_of (text t) = some t
text_of _ = none

abbrev unsigned_of : Value → Option ℕ
unsigned_of (unsigned n) = some n
unsigned_of _ = none

abbrev signed_of : Value → Option ℤ
signed_of (signed z) = some z
signed_of _ = none

abbrev packer : Msgpack
packer = record {
  Value = Value;
  of_text = text;
  of_unsigned = unsigned;
  of_signed = signed;
  as_text = text_of;
  as_uint64 = unsigned_of;
  as_int64 = signed_of;
  as_int32 = signed_of;
  encode = encode;
  decode = decode_from [];
}

packer-IsMsgpack : IsMsgpack packer
packer-IsMsgpack = record {
  decode-encode = decode_from-encode;
  text = λ t. refl;
  uint64 = λ n h. refl;
  int64 = λ z h. refl;
  int32 = λ z h. refl;
}

abbrev sample_msg : Msg
sample_msg = record {
  opcode = read_req;
  filename = 97 ∷ 98 ∷ [];
  size = 4096;
  offset = 512;
  retval = neg 1;
  errval = pos 5;
  opaque = 20;
  timeout = pos 0;
}

sample_msg-IsWord : IsWord sample_msg
sample_msg-IsWord = record {
  size = omega arith;
  offset = omega arith;
  retval = omega arith;
  errval = omega arith;
  opaque = omega arith;
  timeout = omega arith;
}

unpack_example : unpack_msg packer (pack_msg packer sample_msg) (new_msg read_req) ≡ some sample_msg
unpack_example =
    unpack_msg-pack_msg packer packer-IsMsgpack sample_msg (new_msg read_req) sample_msg-IsWord

abbrev serving : Net
serving = record {
  has_service = true;
  unpack = λ bytes. none;
  mempool_alloc = λ size. pos 0;
  mem_alloc = λ size. pos 0;
  file_read = λ filename size offset. pos 0;
  send_response = λ req. pos 0;
}

abbrev one_sent : Link
one_sent = record {
  depth = 1;
  taken = 1;
  waiting = [];
  inflight = [];
  sent = 20 ∷ [];
  completed = [];
  timeouts = 0;
  num_queued = 1;
  num_failed = 0;
  num_completed = 0;
}

one_removed : remove 20 one_sent.sent ≡ some []
unfolding remove
one_removed = refl

even_512 : is_direct_io_aligned 512 ≡ true
unfolding is_direct_io_aligned
even_512 = refl

read_exchange_example :
    (bytes : List ℕ) × (answer packer serving 7 8
        (pos 0)
        (xio_msg_prepare packer (read_message 20 (97 ∷ []) 4096 512))
      ≡ done (some bytes))
    × Returns
        (on_reply packer bytes one_sent)
        (Completes 20 (read_outcome serving (97 ∷ []) 4096 512 (pos 0)) [] one_sent)
read_exchange_example =
    on_reply-answer packer packer-IsMsgpack serving 20 4096 512 7 8 (97 ∷ []) (pos 0) one_sent []
      (omega arith) (omega arith) (omega arith) (omega arith) one_removed (omega arith) even_512
