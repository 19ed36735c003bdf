-- ===== src/Tests/Reads.antt =====
-- A read of a caller that waits for it.
use gobjfs.Base.{pos, neg, true, some, Returns, ebadf}
use gobjfs.Client.Reading.{read}
use gobjfs.Client.Reading.Branches.{read-IsRead, IsRead, goes_out, refusal}
use gobjfs.Client.Vectors.{Giocb, sent}

abbrev one_block : Giocb
one_block = record { nbytes = 4096; offset = pos 8192 }

failed_read_example : Returns (read true one_block true sent (some (neg 1, pos ebadf))) (
    IsRead
      (goes_out true one_block true sent)
      (refusal true one_block true sent)
      (neg 1)
      (pos ebadf))
failed_read_example = read-IsRead true one_block true sent (neg 1) (pos ebadf)
