-- ===== src/File/StatsBuffer.antt =====
-- `IOExecGetStats` in src/gIOExecFile.cpp: texts copied one behind the other into a buffer.
pub mod Copies
use gobjfs.Base.{
  ℕ, ◌+◌, ◌-◌, List, [], ◌∷◌, ◌++◌, length, take, replicate, ltb, leb, if◌then◌else◌, Outcome, done,
  fault, Fault, ◌>>=◌, ◌>>◌, demand,
}

-- `strncpy(buf + curOffset, str, n)`: the text, cut or filled with zeroes to n bytes. The bytes of
-- the buffer that are written so far are `out`.
unfoldable pub copy_text : ℕ → ℕ → List ℕ → List ℕ → Outcome (List ℕ)
copy_text len n text out =
    demand (leb (length out + n) len) Fault.buffer_overrun
    >> done (out ++ take n text ++ replicate (n - length text) 0)

-- A text that does not fit is cut to `len`, whatever the offset is.
abbrev pub copy_len : ℕ → List ℕ → List ℕ → ℕ
copy_len len text out = if leb (len - length out) (length text) then len else length text

-- The loop over the executors.
pub copy_states : ℕ → List (List ℕ) → List ℕ → Outcome (List ℕ)
unfolding copy_text
copy_states len [] out = done out
copy_states len (text ∷ texts) out = copy_text len (copy_len len text out) text out >>= λ out'.
    let rest = copy_states len texts out' in if leb len (length out') then done out' else rest

-- The bytes that were written; their number is what the call returns. The first text is that of the
-- translator, and the others are those of the executors.
unfoldable pub get_stats : ℕ → List ℕ → List (List ℕ) → Outcome (List ℕ)
unfolding copy_states
get_stats len text texts = copy_text len (copy_len len text []) text [] >>= λ out.
    let rest = copy_states len texts out in if ltb (length out) len then rest else done out
