-- ===== src/Ring/Streams.antt =====
-- `ReadNFrom` and `WriteTo` of pkg/multiplexing/ring/buffer.go. The reader and the writer are
-- parameters: they change a stream of any type, and return errors of any type.
use mutagen.Base.{
  ℕ, zero, suc, Bytes, Bool, true, false, ◌&&◌, not, Option, none, some, ◌==◌, nat_eq, ltb, min,
  length, if◌then◌else◌, ◌+◌, ◌-◌,
}
use mutagen.Ring.{Buffer, put, free_length, data_segment, advance, reset_drained}

-- What a call of the reader returns.
pub record Reading (E : Type 0) : Type 0 where
  pub bytes : Bytes
  pub failure : Option E

-- What a call of the writer returns.
pub record Writing (E : Type 0) : Type 0 where
  pub written : ℕ
  pub failure : Option E

-- An error of the stream, or `ErrBufferFull`.
pub data StreamError (E : Type 0) : Type 0 where
  of_stream : E → StreamError E
  no_space : StreamError E

pub record Transfer (S E : Type 0) : Type 0 where
  pub count : ℕ
  pub failure : Option (StreamError E)
  pub buffer : Buffer
  pub stream : S

abbrev pub is_nil : {A : Type 0} → Option A → Bool
is_nil none = true
is_nil (some e) = false

-- The error of the loop.
abbrev pub stream_failure : {E : Type 0} → Option E → Option (StreamError E)
stream_failure none = none
stream_failure (some e) = some (of_stream e)

module _ {S E : Type 0} (reader : ℕ → S → Reading E × S) (is_eof : E → Bool) where
  -- The end of `ReadNFrom`: an end of the stream that comes with the last byte is no error.
  unfoldable pub final_failure : Buffer → ℕ → Option E → Option (StreamError E)
  final_failure b n none = if ltb 0 n && b.used == b.size then some no_space else none
  final_failure b n (some e) = if is_eof e && n == 0 then none else some (of_stream e)

  -- The loop of `ReadNFrom`. Each round takes one unit of fuel.
  unfoldable pub read_n_from_loop : ℕ → Buffer → S → ℕ → ℕ → Option E → Option (Transfer S E)
  read_n_from_loop zero b s n result err = none
  read_n_from_loop (suc fuel) b s n result err =
      let (r, s') = reader (min (free_length b) n) s in
      let rest =
        read_n_from_loop fuel (put b r.bytes) s' (n - length r.bytes) (result + length r.bytes)
          r.failure in
      if ltb 0 n && not (b.used == b.size) && is_nil err
      then rest
      else some (record { count = result; failure = final_failure b n err; buffer = b; stream = s })

  -- `ReadNFrom`
  unfoldable pub read_n_from : Buffer → S → ℕ → Option (Transfer S E)
  read_n_from b s n = read_n_from_loop (suc n) b s n 0 none

module _ {S E : Type 0} (writer : Bytes → S → Writing E × S) where
  -- The loop of `WriteTo`. Each round takes one unit of fuel.
  unfoldable pub write_to_loop : ℕ → Buffer → S → ℕ → Option E → Option (Transfer S E)
  write_to_loop zero b s result err = none
  write_to_loop (suc fuel) b s result err =
      let (w, s') = writer (data_segment b) s in
      let rest = write_to_loop fuel (advance b w.written) s' (result + w.written) w.failure in
      if ltb 0 b.used && is_nil err
      then rest
      else some (record {
        count = result;
        failure = stream_failure err;
        buffer = reset_drained b;
        stream = s;
      })

  -- `WriteTo`
  unfoldable pub write_to : Buffer → S → Option (Transfer S E)
  write_to b s = write_to_loop (suc b.used) b s 0 none
