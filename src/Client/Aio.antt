-- ===== src/Client/Aio.antt =====
-- src/networkxio/gobjfs_client.cpp, gobjfs_client_common.h and context.h: the attributes of a
-- context, and an asynchronous request from its submission to its result.
-- A call answers its result and the errno that it leaves; 0 stands for an errno that it leaves alone.
pub mod Results
use gobjfs.Base.{
  ℕ, zero, suc, ◌+◌, ◌-◌, ◌^◌, ◌%◌, ℤ, pos, negsuc, neg, Bool, true, false, List, [], ◌∷◌, Option,
  none, some, ltb, ◌==◌, ◌||◌, ◌&&◌, not, is_negative, if◌then◌else◌, einval, eagain, ebadf,
  ecanceled, einprogress, etimedout, enomem, eio, Outcome, done, fault, Fault, ◌>>=◌, ◌>>◌, assert,
  demand,
}

pub data TransportType : Type 0 where
  error shared_memory tcp rdma : TransportType

pub record CtxAttr : Type 0 where
  pub transport : TransportType
  pub host : List ℕ
  pub port : ℤ

unfoldable pub ctx_attr_new : CtxAttr
ctx_attr_new = record { transport = TransportType.error; host = []; port = pos 0 }

-- The names that a transport can be given.
pub data TransportName : Type 0 where
  tcp_name rdma_name other_name : TransportName

abbrev pub is_empty_text : List ℕ → Bool
is_empty_text [] = true
is_empty_text (c ∷ cs) = false

abbrev transport_of : TransportName → Option TransportType
transport_of tcp_name = some TransportType.tcp
transport_of rdma_name = some TransportType.rdma
transport_of other_name = none

-- The result, the errno and the attributes.
unfoldable pub ctx_attr_set_transport :
    Option CtxAttr → TransportName → List ℕ → ℤ → ℤ × ℕ × Option CtxAttr
ctx_attr_set_transport none name host port = (neg 1, einval, none)
ctx_attr_set_transport (some attr) name host port =
    if is_empty_text host then (neg 1, einval, some attr) else elim (transport_of name) [
      | none ↦ (neg 1, einval, some attr)
      | some t ↦ (pos 0, 0, some (record { transport = t; host = host; port = port }))
    ]

-- A client_ctx before `ctx_init`; the scheme of its uri is that of its transport.
pub record ClientCtx : Type 0 where
  pub transport : TransportType
  pub host : List ℕ
  pub port : ℤ

unfoldable pub ctx_new : Option CtxAttr → ℕ × Option ClientCtx
ctx_new none = (einval, none)
ctx_new (some attr) = elim attr.transport [
  | TransportType.tcp ↦
      (0, some (record { transport = attr.transport; host = attr.host; port = attr.port }))
  | TransportType.rdma ↦
      (0, some (record { transport = attr.transport; host = attr.host; port = attr.port }))
  | _ ↦ (einval, none)
]

-- An aio_request, with the count of its notifier.
pub record AioRequest : Type 0 where
  pub canceled : Bool
  pub completed : Bool
  pub signaled : Bool
  pub failed : Bool
  pub errno : ℤ
  pub rv : ℤ
  pub count : ℕ

-- `create_new_request`, with a notifier that waits for `count` requests.
unfoldable pub create_new_request : ℕ → AioRequest
create_new_request count = record {
  canceled = false;
  completed = false;
  signaled = false;
  failed = false;
  errno = pos 0;
  rv = pos 0;
  count = count;
}

-- `notifier::signal`
abbrev pub signal : ℕ → Outcome ℕ
signal count = assert (ltb 0 count) >> done (count - 1)

-- `ovs_xio_aio_complete_request`, for a request without a completion object.
unfoldable pub complete_request : ℤ → ℤ → AioRequest → Outcome AioRequest
complete_request retval errval r = do
  count ← signal r.count
  done (record r {
    errno = errval;
    rv = retval;
    failed = is_negative retval;
    completed = true;
    signaled = true;
    count = count;
  })

-- An `int` that a `ssize_t` is assigned to.
abbrev pub to_int : ℤ → ℤ
to_int (pos n) = let k = n % 2 ^ 32 in if ltb k (2 ^ 31) then pos k else neg (2 ^ 32 - k)
to_int (negsuc n) = let k = n % 2 ^ 32 in if ltb k (2 ^ 31) then negsuc k else pos (2 ^ 32 - 1 - k)

-- The macro `GetNegative`.
abbrev pub get_negative : ℤ → ℤ
get_negative (pos n) = neg n
get_negative (negsuc n) = negsuc n

-- `aio_error`, for a context and a control block that are there.
unfoldable pub aio_error : AioRequest → ℤ
aio_error r =
    if r.canceled
    then pos ecanceled
    else (if not r.completed then pos einprogress else (if r.failed then r.errno else pos 0))

unfoldable pub aio_return : AioRequest → ℤ
aio_return r = if not r.failed then to_int r.rv else get_negative r.errno

-- `aio_suspend` without a timeout: the result and the errno. It waits for the notifier's count.
unfoldable pub aio_suspend : AioRequest → Outcome (ℤ × ℤ)
aio_suspend r =
    demand (r.count == 0) Fault.would_block
    >> done (if r.failed then (neg 1, r.errno) else (pos 0, pos 0))

-- `aio_suspend` with a timeout: whether a notification comes within the time decides, and not whether
-- one came before.
unfoldable pub aio_suspend_for : Bool → AioRequest → ℤ × ℤ
aio_suspend_for notified r =
    if not notified
    then (neg 1, pos eagain)
    else (if r.failed then (neg 1, r.errno) else (pos 0, pos 0))

-- `read` in gobjfs_client.cpp, once the reply is there.
unfoldable pub read_result : AioRequest → Outcome ℤ
unfolding aio_suspend aio_return
read_result r = aio_suspend r >>= λ s. done (elim (s.0) [ pos zero ↦ aio_return r | _ ↦ s.0 ])
