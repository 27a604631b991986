-- ===== src/Tests/Rio.antt =====
-- rio.h: four bytes written in chunks of three and read in chunks of two.
use redis_allocators.Prelude.{ℕ, ◌+◌, ◌≡◌, refl, some, List, [], ◌∷◌, length}
use redis_allocators.Rio.{
  Buffer, Rio, init_with_buffer, buffer_write, buffer_read, rio_write, rio_read, write_loop,
  read_loop,
}
use redis_allocators.Util.{codes}
use redis_allocators.Rio.Crc64.{crc64, add_byte, generic_update_checksum}
use redis_allocators.Rio.Checksum.{rio_read-rio_write_cksum}

-- The check value of the program's own test.
checks : crc64 0 (codes "123456789") ≡ 16845390139448941002
unfolding crc64 add_byte
checks = refl

abbrev stream_of : List ℕ → ℕ → Rio Buffer
stream_of bytes chunk_size = record {
  io = init_with_buffer bytes;
  update_cksum = some generic_update_checksum;
  cksum = 0;
  processed_bytes = 0;
  max_processing_chunk = chunk_size;
}

abbrev four : List ℕ
four = 1 ∷ 2 ∷ 3 ∷ 4 ∷ []

abbrev written : Rio Buffer
written = record {
  io = record { ptr = four; pos = 4 };
  update_cksum = some generic_update_checksum;
  cksum = 4523741873415570766;
  processed_bytes = 4;
  max_processing_chunk = 3;
}

abbrev read_back : Rio Buffer
read_back = record {
  io = record { ptr = four; pos = 4 };
  update_cksum = some generic_update_checksum;
  cksum = 4523741873415570766;
  processed_bytes = 4;
  max_processing_chunk = 2;
}

writes : rio_write buffer_write (stream_of [] 3) four ≡ some written
unfolding rio_write write_loop buffer_write generic_update_checksum
writes = refl

reads : rio_read buffer_read (stream_of four 2) 4 ≡ some (four, read_back)
unfolding rio_read read_loop buffer_read generic_update_checksum
reads = refl

rio_read-rio_write_cksum_example :
    (read_back.cksum ≡ written.cksum)
    × (written.cksum ≡ crc64 0 four)
    × (written.processed_bytes ≡ 0 + length four)
    × (read_back.processed_bytes ≡ 0 + 4)
rio_read-rio_write_cksum_example =
    rio_read-rio_write_cksum buffer_write buffer_read (stream_of [] 3) written (stream_of four 2)
      read_back four 4 refl refl refl writes reads
