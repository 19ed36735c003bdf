-- ===== src/Client/Aio/Results.antt =====
-- What a caller reads off a request that the server has answered.
use gobjfs.Base.{
  ℕ, zero, suc, ◌^◌, ◌<◌, ◌≡◌, refl, ℤ, pos, negsuc, neg, false, List, ◌∷◌, arith, done, fault,
  Fault, Returns, eagain, einprogress, some, none, ap, ◌⊎◌, inl, inr, [],
}
use gobjfs.Client.Aio.{
  TransportName, TransportType, ctx_attr_new, ctx_attr_set_transport, ctx_new, create_new_request,
  complete_request, aio_error, aio_return, aio_suspend, aio_suspend_for, read_result, to_int,
  tcp_name, rdma_name, other_name, is_empty_text,
}

small_int : (n : ℕ) → n < 2 ^ 31 → to_int (pos n) ≡ pos n
small_int n h = ground arith

-- A request with a notifier of its own that is answered with a size below 2^31: until then it is in
-- progress and a call that suspends waits; afterwards there is no error, the call that suspends returns
-- at once, and the size is the result. But a call that suspends with a timeout after the answer has
-- come reports -1 with EAGAIN, since nobody notifies it any more.
pub complete_request-answered :
    (n : ℕ)
    → n < 2 ^ 31
    → (aio_error (create_new_request 1) ≡ pos einprogress)
      × (aio_suspend (create_new_request 1) ≡ fault Fault.would_block)
      × Returns (complete_request (pos n) (pos 0) (create_new_request 1)) λ r.
        (aio_error r ≡ pos 0)
        × (aio_suspend r ≡ done (pos 0, pos 0))
        × (read_result r ≡ done (pos n))
        × (aio_suspend_for false r ≡ (neg 1, pos eagain))
unfolding create_new_request complete_request aio_error aio_suspend aio_suspend_for read_result
    aio_return
complete_request-answered n h = (refl, refl, (refl, refl, ap done (small_int n h), refl))

-- A request that fails reports its error, whichever sign the server gave it: the result is the error
-- as a negative number, and reading returns -1.
pub complete_request-failed :
    (k e : ℕ)
    → 0 < e
    → Returns
        (complete_request (negsuc k) (pos e) (create_new_request 1))
        (λ r. (aio_error r ≡ pos e) × (aio_return r ≡ neg e) × (read_result r ≡ done (neg 1)))
      × Returns
          (complete_request (negsuc k) (neg e) (create_new_request 1))
          (λ r. (aio_error r ≡ neg e) × (aio_return r ≡ neg e) × (read_result r ≡ done (neg 1)))
unfolding create_new_request complete_request aio_error aio_suspend aio_suspend_for read_result
    aio_return
complete_request-failed k zero h = absurd (omega arith)
complete_request-failed k (suc e) h = ((refl, refl, refl), (refl, refl, refl))

-- A context can be made of attributes exactly if a transport was set on them, and it is set exactly if
-- the name is one of the two and the host is not empty.
pub ctx_new-ctx_attr_set_transport :
    (name : TransportName) (host : List ℕ) (port : ℤ)
    → let r = ctx_attr_set_transport (some ctx_attr_new) name host port in
      ((r.0 ≡ pos 0)
        × (is_empty_text host ≡ false)
        × ((t : TransportType) × (ctx_new (r.2)
              ≡ (0, some (record { transport = t; host = host; port = port })))))
      ⊎ ((r.0 ≡ neg 1) × ((ctx_new (r.2)).1 ≡ none))
unfolding ctx_attr_new ctx_attr_set_transport ctx_new
ctx_new-ctx_attr_set_transport name [] port = inr (refl, refl)
ctx_new-ctx_attr_set_transport tcp_name (c ∷ cs) port = inl (refl, refl, (TransportType.tcp, refl))
ctx_new-ctx_attr_set_transport rdma_name (c ∷ cs) port =
    inl (refl, refl, (TransportType.rdma, refl))
ctx_new-ctx_attr_set_transport other_name (c ∷ cs) port = inr (refl, refl)
