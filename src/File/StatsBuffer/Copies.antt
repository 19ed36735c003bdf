-- ===== src/File/StatsBuffer/Copies.antt =====
-- What fits into the buffer, and what does not.
use gobjfs.Base.{
  ℕ, ◌+◌, ◌-◌, ◌≤◌, ◌<◌, ◌≡◌, refl, List, [], ◌∷◌, ◌++◌, length, replicate, take-length,
  length-append, append-nil, append_assoc, arith, done, fault, Fault, leb, lt→ltb, ap, sym, true,
  false,
}
use gobjfs.File.StatsBuffer.{copy_text, copy_len, copy_states, get_stats}

-- All the bytes of some texts.
abbrev pub joined : List (List ℕ) → List ℕ
joined [] = []
joined (text ∷ texts) = text ++ joined texts

lt→not_leb : (a b : ℕ) → b < a → leb a b ≡ false
lt→not_leb a b h = ground arith

le→leb : (a b : ℕ) → a ≤ b → leb a b ≡ true
le→leb a b h = ground arith

minus_self : (n : ℕ) → n - n ≡ 0
minus_self n = omega arith

no_padding : (n : ℕ) → replicate {A = ℕ} (n - n) 0 ≡ []
no_padding n = rw (minus_self n) refl

copy_text-fits :
    (len : ℕ) (text out : List ℕ)
    → length out + length text < len
    → copy_text len (copy_len len text out) text out ≡ done (out ++ text)
unfolding copy_text
copy_text-fits len text out h =
    rw
      (
        lt→not_leb (len - length out) (length text) (omega arith),
        le→leb (length out + length text) len (omega arith),
        take-length text,
        no_padding (length text),
        append-nil (out ++ text),
      )
      refl

copy_states-fits :
    (len : ℕ) (texts : List (List ℕ)) (out : List ℕ)
    → length out + length (joined texts) < len
    → copy_states len texts out ≡ done (out ++ joined texts)
unfolding copy_states
copy_states-fits len [] out h = ap done (sym (append-nil out))
copy_states-fits len (text ∷ texts) out h =
    rw
      (
        copy_text-fits len text out (omega (arith, length-append text (joined texts))),
        lt→not_leb len (length (out ++ text))
            (omega (arith, length-append text (joined texts), length-append out text)),
        copy_states-fits len texts (out ++ text)
            (omega (arith, length-append text (joined texts), length-append out text)),
      )
      (ap done (append_assoc out text (joined texts)))

-- Where all the texts together are shorter than the buffer, the call writes them one behind the other
-- and nothing else.
pub get_stats-fits :
    (len : ℕ) (text : List ℕ) (texts : List (List ℕ))
    → length text + length (joined texts) < len
    → get_stats len text texts ≡ done (text ++ joined texts)
unfolding get_stats
get_stats-fits len text texts h =
    rw
      (
        copy_text-fits len text [] (omega arith),
        lt→ltb (length text) len (omega arith),
        copy_states-fits len texts text h,
      )
      refl

copy_text-overruns :
    (len : ℕ) (text out : List ℕ)
    → 0 < length out
    → len ≤ length out + length text
    → copy_text len (copy_len len text out) text out ≡ fault Fault.buffer_overrun
unfolding copy_text
copy_text-overruns len text out p h =
    rw
      (
        le→leb (len - length out) (length text) (omega arith),
        lt→not_leb (length out + len) len (omega arith),
      )
      refl

-- Where the first text fits and leaves too little room for the second, the buffer is overrun: the
-- second is cut to the length of the whole buffer.
pub get_stats-overruns :
    (len : ℕ) (text next : List ℕ) (texts : List (List ℕ))
    → 0 < length text
    → length text < len
    → len ≤ length text + length next
    → get_stats len text (next ∷ texts) ≡ fault Fault.buffer_overrun
unfolding get_stats copy_states
get_stats-overruns len text next texts p h o =
    rw
      (
        copy_text-fits len text [] (omega (arith, h)),
        lt→ltb (length text) len h,
        copy_text-overruns len next text p o,
      )
      refl
