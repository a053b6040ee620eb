-- ===== src/Net/Buffer/Tests.antt =====
-- Runs of the buffer at concrete inputs, and its theorems there.
use plugins_engine.Prelude.{◌≡◌, refl, List, [], ◌∷◌, arith, some, true}
use mathlib.Core.Logic.{ite}
use native.Mathlib.Decide.{dec_le}
use plugins_engine.Net.Buffer.{
  Buffer, Readv, failed, received, append, read_bytes, readable_bytes, iov_lens, read_from_io,
  find_crlf, clear_read_index, is_empty, finish_read, stored, scatter, ensure_writable_bytes,
  resize, copy_to, writable_bytes, search_crlf, starts_with_crlf, clamp_len, reset_index,
}
use plugins_engine.Net.Buffer.Invariant.{IsValid}
use plugins_engine.Net.Buffer.Content.{
  content, content-append, Fits, sum, Delivers, read_from_io-Delivers,
}
use plugins_engine.Net.Buffer.Queue.{
  Op, put, discard, get_bytes, get_string, get_all_bytes, run, run_queue, run-eq-run_queue,
}
use plugins_engine.Net.Buffer.Crlf.{Retrieves, retrieve_until-find_crlf}

-- "AB\r\nC" behind one consumed byte, with two bytes of room.
abbrev line : Buffer
line = record { read_index = 1; write_index = 6; buffer = 0 ∷ 65 ∷ 66 ∷ 13 ∷ 10 ∷ 67 ∷ 0 ∷ 0 ∷ [] }

line-IsValid : IsValid line
line-IsValid = omega arith

-- A socket that has three bytes.
abbrev three_bytes : Readv
three_bytes lens = ite (dec_le 3 (sum lens)) (received (1 ∷ 2 ∷ 3 ∷ [])) (failed 11)

three_bytes-Fits : Fits three_bytes
three_bytes-Fits lens got e = ground arith

-- Two bytes go to the storage and one through the stack buffer.
read_past_the_end :
    (read_from_io three_bytes line).after.buffer ≡ 0 ∷ 65 ∷ 66 ∷ 13 ∷ 10 ∷ 67 ∷ 1 ∷ 2 ∷ 3 ∷ []
unfolding read_from_io finish_read stored scatter append ensure_writable_bytes resize copy_to
    iov_lens writable_bytes dec_le
read_past_the_end = refl

append_grows : (append line (7 ∷ 8 ∷ 9 ∷ [])).buffer ≡ 0 ∷ 65 ∷ 66 ∷ 13 ∷ 10 ∷ 67 ∷ 7 ∷ 8 ∷ 9 ∷ []
unfolding append ensure_writable_bytes resize copy_to writable_bytes
append_grows = refl

finds_line_end : find_crlf line ≡ some 3
unfolding find_crlf search_crlf starts_with_crlf
finds_line_end = refl

empties : is_empty (read_bytes line 9).2 ≡ true
unfolding read_bytes clamp_len readable_bytes clear_read_index reset_index is_empty
empties = refl

abbrev script : List Op
script = put (7 ∷ 8 ∷ 9 ∷ []) ∷ get_bytes 4 ∷ discard 1 ∷ get_all_bytes ∷ get_string 1 ∷ []

run-eq-run_queue_example : run line script ≡ run_queue (content line) script
run-eq-run_queue_example = run-eq-run_queue script line-IsValid (omega arith)

read_from_io-Delivers_example :
    Delivers line (three_bytes (iov_lens line)) (read_from_io three_bytes line)
read_from_io-Delivers_example =
    read_from_io-Delivers three_bytes three_bytes-Fits line-IsValid (omega arith)

content-append_example : content (append line (7 ∷ [])) ≡ 65 ∷ 66 ∷ 13 ∷ 10 ∷ 67 ∷ 7 ∷ []
content-append_example = content-append (7 ∷ []) line-IsValid (omega arith)

retrieve_until-find_crlf_example : Retrieves line (find_crlf line)
retrieve_until-find_crlf_example = retrieve_until-find_crlf line-IsValid
